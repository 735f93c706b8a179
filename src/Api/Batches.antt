-- ===== src/Api/Batches.antt =====
-- backend/app/api/routers/batches.py, in the session of its request.
use document_classifier.Prelude.{List, [], ◌∷◌, String}
use document_classifier.Exec.{Exec, ◌>>◌}
use document_classifier.Contracts.{BatchOut}
use document_classifier.Db.{Batch}
use document_classifier.Services.World.{CacheBackend, Codecs, World, on_db, in_session}
use document_classifier.Services.Batches as Service
use document_classifier.Api.Deps.{AppState, Decoder, require_role}

module _ (C : CacheBackend) (J : Codecs) (app : AppState) (decode : Decoder)
    (auth_header : String) where
  unfoldable pub list_batches_endpoint :
      (List Batch → List Batch) → Exec (World C.Store) (List BatchOut)
  list_batches_endpoint newest_first = in_session do
    on_db (require_role app decode auth_header ("read_batch" ∷ []))
    Service.list_batches C J newest_first

  unfoldable pub get_batch_endpoint : String → Exec (World C.Store) BatchOut
  get_batch_endpoint bid =
      in_session do
        on_db (require_role app decode auth_header ("read_batch" ∷ []))
        Service.get_batch C J bid
