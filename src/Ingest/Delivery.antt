-- ===== src/Ingest/Delivery.antt =====
-- What becomes of a file when no call fails.
use document_classifier.Prelude.{ℕ, ◌≡◌, some, [], ◌∷◌, String, arith}
use document_classifier.Exec.{ok, err, file_validation}
use document_classifier.Exec.Retry.{retry}
use document_classifier.Contracts.{DocumentOut}
use document_classifier.Db.{Db}
use document_classifier.Repositories.Documents.{ensure_for_ingest}
use document_classifier.Ingest.Validation.{Bytes, IngestedDocument, Opened, validate_tiff}
use document_classifier.Ingest.State.{
  Servers, find_file, remove_file, under, call, fetch, move_to_processed, move_to_quarantine,
  put_blob, enqueue,
}
use document_classifier.Ingest.Processor.{
  upload_with_retry, commit_row, ensure_document_row, job_of, enqueue_with_retry, store_document,
  dispatch, process_remote_file,
}

module _ (open_image : Bytes → Opened) (now max_bytes : ℕ) (request_id path : String) (s : Servers)
    (bytes : Bytes) (quiet : s.schedule ≡ []) (there : find_file path s.incoming ≡ some bytes) where
  fetched : call (fetch path) s ≡ (ok bytes, s)
  unfolding call under fetch
  fetched = ground arith

  -- The servers behind a file that was stored.
  abbrev pub delivered : IngestedDocument → Db → Servers
  delivered document db' = record s {
    incoming = remove_file path s.incoming;
    processed = path ∷ s.processed;
    blobs = (document.blob_key, document.data_bytes) ∷ s.blobs;
    db = db';
    queue = job_of document request_id ∷ s.queue;
  }

  -- Where no call fails, a file that is there and valid, and whose document the database takes, is
  -- stored under its key, gets its row and one job, and moves to `processed`, and the call returns.
  pub process_remote_file_delivers :
      (document : IngestedDocument) (row : DocumentOut) (db' : Db)
      → validate_tiff open_image path bytes max_bytes ≡ ok document
      → ensure_for_ingest now document.batch_id document.document_id document.blob_key s.db
        ≡ (ok row, db')
      → process_remote_file open_image now max_bytes request_id path s
        ≡ (ok tt, delivered document db')
  unfolding process_remote_file dispatch store_document upload_with_retry ensure_document_row
      enqueue_with_retry commit_row retry call under put_blob enqueue move_to_processed
      move_to_quarantine
  process_remote_file_delivers document row db' valid kept = ground (arith, fetched)

  -- Where no call fails, a file that is there and that the validation refuses moves to `quarantine`, the
  -- call returns, and nothing else changes.
  pub process_remote_file_quarantines :
      validate_tiff open_image path bytes max_bytes ≡ err file_validation
      → process_remote_file open_image now max_bytes request_id path s ≡ (
        ok tt,
        record s { incoming = remove_file path s.incoming; quarantine = path ∷ s.quarantine },
      )
  unfolding process_remote_file dispatch store_document upload_with_retry ensure_document_row
      enqueue_with_retry commit_row retry call under put_blob enqueue move_to_processed
      move_to_quarantine
  process_remote_file_quarantines refused = ground (arith, fetched)
