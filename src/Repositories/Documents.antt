-- ===== src/Repositories/Documents.antt =====
-- backend/app/repositories/document_repo.py. The creation times are arguments.
pub mod Rows
pub mod Counted
pub mod Counts
use document_classifier.Prelude.{ℕ, ◌+◌, Option, none, some, String, ◌==◌, if◌then◌else◌}
use document_classifier.Exec.{Exec, pure, raise, lift, gets, ◌>>=◌, value_error}
use document_classifier.Uuid.{Uuid, parse_uuid}
use document_classifier.Contracts.{DocumentOut, pending, status_value}
use document_classifier.Db.{
  Batch, Document, Db, batch_with, document_with, find?, insert_batch, update_batch,
  insert_document, update_document,
}
use document_classifier.Repositories.Mapping.{document_to_domain}

-- The batch, which is created when it is not there.
unfoldable pub ensure_batch : ℕ → Uuid → Option Batch → Exec Db Batch
ensure_batch now batch_uuid (some batch) = pure batch
ensure_batch now batch_uuid none = insert_batch (record {
  id = batch_uuid;
  status = status_value pending;
  document_count = 0;
  created_at = now;
})

-- The document, which is created and counted when it is not there.
unfoldable pub ensure_document : ℕ → Batch → Uuid → String → Option Document → Exec Db Document
ensure_document now batch document_uuid blob_key none = do
  document ←
      insert_document
        (record { id = document_uuid; batch_id = batch.id; blob_key = blob_key; created_at = now })
  counted ← update_batch batch (λ r. record r { document_count = r.document_count + 1 })
  pure document
ensure_document now batch document_uuid blob_key (some document) =
    if document.batch_id == batch.id
    then update_document document (λ r. record r { blob_key = blob_key })
    else raise value_error

unfoldable pub ensure_for_ingest : ℕ → String → String → String → Exec Db DocumentOut
unfolding ensure_batch ensure_document
ensure_for_ingest now batch_id document_id blob_key = do
  batch_uuid ← lift (parse_uuid batch_id)
  document_uuid ← lift (parse_uuid document_id)
  old_batch ← gets (λ (db : Db). find? (batch_with batch_uuid) db.batches)
  batch ← ensure_batch now batch_uuid old_batch
  old_document ← gets (λ (db : Db). find? (document_with document_uuid) db.documents)
  document ← ensure_document now batch document_uuid blob_key old_document
  pure (document_to_domain document)
