-- ===== src/Services/Cache/Reading.antt =====
-- A read through the cache, and the read behind it.
use document_classifier.Prelude.{ℕ, ◌≡◌, false, some, none, String, str_eq, arith}
use document_classifier.Exec.{Result, ok, Exec}
use document_classifier.Services.World.{CacheBackend, World}
use document_classifier.Services.Cache.{cache_get, cache_set, fill, cached_or}

module _ {A : Type 0} (C : CacheBackend) (key : String) (ttl : ℕ) (load : String → Result A)
    (dump : A → String) (compute later : Exec (World C.Store) A) (w : World C.Store) (a : A) where
  -- Where the cache has nothing, or fails, a read gives what is computed. Where the cache then
  -- keeps what it is given, and the dumped value is a text that is not empty and is read back,
  -- the next read gives the same value from the cache and leaves the tables alone, whatever would
  -- be computed by then.
  pub cached_or_lem :
      (cache_get C key w).0 ≡ none
      → (compute (cache_get C key w).1).0 ≡ ok a
      → load (dump a) ≡ ok a
      → str_eq (dump a) "" ≡ false
      → ((s : C.Store) → (C.get key (C.set key (dump a) ttl s).1).0 ≡ ok (some (dump a)))
      → ((cached_or C key ttl load dump compute w).0 ≡ ok a)
        × ((cached_or C key ttl load dump later (cached_or C key ttl load dump compute w).1).0
            ≡ ok a)
        × ((cached_or C key ttl load dump later (cached_or C key ttl load dump compute w).1).1.db
            ≡ (cached_or C key ttl load dump compute w).1.db)
  unfolding cached_or cache_get cache_set fill
  cached_or_lem empty computed read_back given keeps =
      let w₁ = (cache_get C key w).1 in
      let kept = keeps (compute w₁).1.cache in (ground arith, ground arith, ground arith)
