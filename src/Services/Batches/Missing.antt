-- ===== src/Services/Batches/Missing.antt =====
-- `get_batch` of a batch that is not there.
use Prim.Native.String.{◌++◌}
use document_classifier.Prelude.{◌≡◌, none, String, arith}
use document_classifier.Exec.{ok, err, lookup_error}
use document_classifier.Uuid.{Uuid, parse_uuid}
use document_classifier.Db.{batch_with, find?}
use document_classifier.Repositories.Mapping.{require_row}
use document_classifier.Repositories.Batches as Repo
use document_classifier.Services.World.{CacheBackend, Codecs, World}
use document_classifier.Services.Cache.{cache_get, cached_or, fill}
use document_classifier.Services.Batches.{not_found, catch_key_error, get_batch}

-- A batch that neither the cache nor the table has, by a text that is a UUID, is no 404: the
-- LookupError of the repository gets out, since the service catches a KeyError alone.
pub get_batch_missing :
    (C : CacheBackend) (J : Codecs) (text : String) (u : Uuid) (w : World C.Store)
    → (cache_get C ("batches:" ++ text) w).0 ≡ none
    → parse_uuid text ≡ ok u
    → find? (batch_with u) w.db.batches ≡ none
    → (get_batch C J text w).0 ≡ err lookup_error
unfolding get_batch cached_or cache_get fill catch_key_error not_found Repo.get Repo.require_batch
    require_row
get_batch_missing C J text u w uncached parsed missing = ground arith
