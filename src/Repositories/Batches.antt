-- ===== src/Repositories/Batches.antt =====
-- backend/app/repositories/batch_repo.py. The order that the database returns rows of one creation
-- time in is an argument.
use document_classifier.Prelude.{List, [], ◌∷◌, String}
use document_classifier.Exec.{Result, ok, err, Exec, lift, gets, ◌>>=◌}
use document_classifier.Uuid.{parse_uuid}
use document_classifier.Contracts.{BatchOut, BatchStatus, status_value}
use document_classifier.Db.{Batch, Db, batch_with, find?, update_batch}
use document_classifier.Repositories.Mapping.{batch_to_domain, require_row}

unfoldable pub batches_to_domain : List Batch → Result (List BatchOut)
batches_to_domain [] = ok []
batches_to_domain (batch ∷ rest) = elim (batch_to_domain batch) [
  | ok b ↦ elim (batches_to_domain rest) [ ok bs ↦ ok (b ∷ bs) | err e ↦ err e ]
  | err e ↦ err e
]

-- ORDER BY created_at DESC
unfoldable pub list_batches : (List Batch → List Batch) → Exec Db (List BatchOut)
list_batches newest_first db = (batches_to_domain (newest_first db.batches), db)

unfoldable pub require_batch : String → Exec Db Batch
unfolding require_row
require_batch batch_id = do
  id ← lift (parse_uuid batch_id)
  found ← gets (λ (db : Db). find? (batch_with id) db.batches)
  require_row found

unfoldable pub get : String → Exec Db BatchOut
get batch_id = do batch ← require_batch batch_id; lift (batch_to_domain batch)

unfoldable pub update_status : String → BatchStatus → Exec Db BatchOut
update_status batch_id status = do
  batch ← require_batch batch_id
  updated ← update_batch batch (λ r. record r { status = status_value status })
  lift (batch_to_domain updated)
