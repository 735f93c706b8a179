-- ===== src/Services/Cache.antt =====
-- `_cache_get`, `_cache_set` and `_cache_clear` of the services: no exception of the cache gets out.
pub mod Reading
use document_classifier.Prelude.{ℕ, Option, none, some, String, str_eq, if◌then◌else◌}
use document_classifier.Exec.{Result, ok, err, Exec}
use document_classifier.Services.World.{CacheBackend, World}

module _ (C : CacheBackend) where
  -- `except Exception: return None`
  unfoldable pub cache_get : String → World C.Store → Option String × World C.Store
  cache_get key w =
      let (r, c) = C.get key w.cache in
      let w' : World C.Store = record { db = w.db; cache = c } in
      elim r [ ok found ↦ (found, w') | err _ ↦ (none, w') ]

  unfoldable pub cache_set : String → String → ℕ → Exec (World C.Store) (Unit {0})
  cache_set key value ttl w = (ok tt, record { db = w.db; cache = (C.set key value ttl w.cache).1 })

  unfoldable pub cache_clear : String → Exec (World C.Store) (Unit {0})
  cache_clear key w = (ok tt, record { db = w.db; cache = (C.clear key w.cache).1 })

  -- What is stored once a value was computed.
  unfoldable pub fill :
      {A : Type 0} → String → ℕ → (A → String) → Result A × World C.Store → Result A × World C.Store
  unfolding cache_set
  fill key ttl dump (ok a, w) = (ok a, (cache_set key (dump a) ttl w).1)
  fill key ttl dump (err e, w) = (err e, w)

  -- `if cached:` is false for an empty text too. Then `compute` makes the value and it is stored.
  unfoldable pub cached_or :
      {A : Type 0}
      → String
      → ℕ
      → (String → Result A)
      → (A → String)
      → Exec (World C.Store) A
      → Exec (World C.Store) A
  unfolding cache_get fill
  cached_or key ttl load dump compute w =
      let (found, w₁) = cache_get key w in
      elim found [
        | none ↦ fill key ttl dump (compute w₁)
        | some text ↦ if str_eq text "" then fill key ttl dump (compute w₁) else (load text, w₁)
      ]
