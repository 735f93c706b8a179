-- ===== src/Services/World.antt =====
-- What the services use and do not implement: the cache backend of fastapi-cache, and the JSON of
-- pydantic. `World` is the state that a request works on, `in_session` the transaction around it:
-- `get_session` of backend/app/api/deps.py.
use document_classifier.Prelude.{ℕ, Option, List, String}
use document_classifier.Exec.{Result, ok, err, Exec}
use document_classifier.Contracts.{UserOut, BatchOut, PredictionOut}
use document_classifier.Db.{Db}

-- `FastAPICache.get_backend().get(key)` and `.set(key, value, ttl)`, and
-- `FastAPICache.clear(namespace=key)`. Each may raise.
pub record CacheBackend : Type 1 where
  pub Store : Type 0
  pub get : String → Exec Store (Option String)
  pub set : String → String → ℕ → Exec Store (Unit {0})
  pub clear : String → Exec Store (Unit {0})

-- `model_dump_json` and `model_validate_json`, or `json.dumps` of dumped models and the validation of
-- what `json.loads` gives. A text that is no such model raises.
pub record Codec (A : Type 0) : Type 0 where
  pub dump : A → String
  pub load : String → Result A

pub record Codecs : Type 0 where
  pub user : Codec UserOut
  pub batch : Codec BatchOut
  pub batches : Codec (List BatchOut)
  pub predictions : Codec (List PredictionOut)

pub record World (Store : Type 0) : Type 0 where
  pub db : Db
  pub cache : Store

module _ {Store A : Type 0} where
  -- A call of a repository.
  abbrev pub on_db : Exec Db A → Exec (World Store) A
  on_db m w = let (r, d) = m w.db in (r, record { db = d; cache = w.cache })

  abbrev pub on_cache : Exec Store A → Exec (World Store) A
  on_cache m w = let (r, c) = m w.cache in (r, record { db = w.db; cache = c })

  -- What the transaction leaves: all of it when the call returned, and the tables as they were before
  -- when it raised. The cache is no part of the transaction.
  unfoldable pub settle : Db → Result A × World Store → Result A × World Store
  settle before (ok a, w) = (ok a, w)
  settle before (err e, w) = (err e, record { db = before; cache = w.cache })

  unfoldable pub in_session : Exec (World Store) A → Exec (World Store) A
  unfolding settle
  in_session m w = settle w.db (m w)
