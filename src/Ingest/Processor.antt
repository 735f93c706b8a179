-- ===== src/Ingest/Processor.antt =====
-- backend/sftp_ingest/processor.py. The times of the rows, the keys of the requests and what PIL makes
-- of a file are arguments.
use document_classifier.Prelude.{ℕ, zero, suc, ◌+◌, Bool, true, List, [], ◌∷◌, map, String}
use document_classifier.Exec.{
  Error, Result, ok, err, file_validation, Exec, pure, raise, gets, ◌>>=◌, ◌>>◌,
}
use document_classifier.Exec.Retry.{retry}
use document_classifier.Contracts.{ClassifyJob}
use document_classifier.Repositories.Documents.{ensure_for_ingest}
use document_classifier.Ingest.Validation.{Bytes, IngestedDocument, Opened, validate_tiff}
use document_classifier.Ingest.State.{
  Servers, ensure_buckets, call, fetch, move_to_processed, move_to_quarantine, put_blob, enqueue,
}

-- `retry_if_exception_type(Exception)`
abbrev pub any_error : Error → Bool
any_error e = true

unfoldable pub upload_with_retry : IngestedDocument → Exec Servers (Unit {0})
upload_with_retry document =
    retry any_error (call (put_blob document.blob_key document.data_bytes)) 2

-- One session: the tables are committed when the statements returned, and rolled back when one raised.
unfoldable pub commit_row : ℕ → IngestedDocument → Exec Servers (Unit {0})
commit_row now document s =
    let (r, db) =
      ensure_for_ingest now document.batch_id document.document_id document.blob_key s.db in
    elim r [ ok row ↦ (ok tt, record s { db = db }) | err e ↦ (err e, s) ]

unfoldable pub ensure_document_row : ℕ → IngestedDocument → Exec Servers (Unit {0})
ensure_document_row now document = retry any_error (call (commit_row now document)) 2

unfoldable pub job_of : IngestedDocument → String → ClassifyJob
job_of document request_id = record {
  batch_id = document.batch_id;
  document_id = document.document_id;
  blob_key = document.blob_key;
  request_id = request_id;
}

unfoldable pub enqueue_with_retry : IngestedDocument → String → Exec Servers (Unit {0})
enqueue_with_retry document request_id =
    retry any_error (call (enqueue (job_of document request_id))) 2

-- What is done with a file that was found to be a document.
unfoldable pub store_document : ℕ → String → String → IngestedDocument → Exec Servers (Unit {0})
store_document now remote_path request_id document = do
  upload_with_retry document
  ensure_document_row now document
  enqueue_with_retry document request_id
  call (move_to_processed remote_path)

-- `except FileValidationError`: no other error of the validation is caught.
unfoldable pub dispatch : ℕ → String → String → Result IngestedDocument → Exec Servers (Unit {0})
dispatch now remote_path request_id (ok document) =
    store_document now remote_path request_id document
dispatch now remote_path request_id (err file_validation) = call (move_to_quarantine remote_path)
dispatch now remote_path request_id (err e) = raise e

module _ (open_image : Bytes → Opened) (now : ℕ) (max_bytes : ℕ) where
  unfoldable pub process_remote_file : String → String → Exec Servers (Unit {0})
  process_remote_file request_id remote_path = do
    bytes ← call (fetch remote_path)
    dispatch now remote_path request_id (validate_tiff open_image remote_path bytes max_bytes)

  -- The loop of `poll_once`: an exception of one file ends that file alone.
  unfoldable pub process_all : (ℕ → String) → ℕ → List String → Servers → Servers
  process_all request_ids i [] s = s
  process_all request_ids i (path ∷ paths) s =
      process_all request_ids (i + 1) paths (process_remote_file (request_ids i) path s).1

  unfoldable pub list_incoming : Exec Servers (List String)
  list_incoming = gets (λ s. map (λ (f : String × Bytes). f.0) s.incoming)

  unfoldable pub poll_once : (ℕ → String) → Exec Servers (Unit {0})
  poll_once request_ids = do
    paths ← call list_incoming
    λ s. (ok tt, process_all request_ids 0 paths s)

  -- `rounds` rounds of `while True`; the exception of a listing ends the loop.
  unfoldable pub poll_rounds : (ℕ → ℕ → String) → ℕ → Exec Servers (Unit {0})
  poll_rounds request_ids zero = pure tt
  poll_rounds request_ids (suc rounds) = do
    poll_once (request_ids rounds)
    poll_rounds request_ids rounds

  -- An exception of the storage ends the worker before its first round.
  unfoldable pub run_forever : (ℕ → ℕ → String) → ℕ → Exec Servers (Unit {0})
  run_forever request_ids rounds = do ensure_buckets; poll_rounds request_ids rounds
