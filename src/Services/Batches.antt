-- ===== src/Services/Batches.antt =====
-- backend/app/services/batch_service.py
pub mod Missing
use Prim.Native.String.{◌++◌}
use document_classifier.Prelude.{List, String}
use document_classifier.Exec.{ok, err, Error, key_error, http, Exec}
use document_classifier.Contracts.{BatchOut}
use document_classifier.Db.{Batch}
use document_classifier.Repositories.Batches as Repo
use document_classifier.Services.World.{CacheBackend, Codecs, World, on_db}
use document_classifier.Services.Cache.{cached_or}

-- `except KeyError`: no other error is a 404.
unfoldable pub not_found : Error → Error
not_found key_error = http 404
not_found e = e

unfoldable pub catch_key_error : {S A : Type 0} → Exec S A → Exec S A
unfolding not_found
catch_key_error m s =
    let (r, s') = m s in elim r [ ok a ↦ (ok a, s') | err e ↦ (err (not_found e), s') ]

module _ (C : CacheBackend) (J : Codecs) where
  unfoldable pub list_batches : (List Batch → List Batch) → Exec (World C.Store) (List BatchOut)
  unfolding cached_or
  list_batches newest_first =
      cached_or C "batches:list" 30 J.batches.load J.batches.dump
        (on_db (Repo.list_batches newest_first))

  unfoldable pub get_batch : String → Exec (World C.Store) BatchOut
  unfolding cached_or catch_key_error
  get_batch batch_id =
      cached_or C ("batches:" ++ batch_id) 30 J.batch.load J.batch.dump
        (catch_key_error (on_db (Repo.get batch_id)))
