-- ===== src/App/Boot.antt =====
-- The lifespan of backend/app/main.py, with backend/app/infra/cache.py. The client of Vault, the database's
-- engine, MinIO, casbin and redis are arguments.
use document_classifier.Prelude.{
  ℕ, zero, suc, ◌-◌, Bool, true, false, Option, none, some, List, [], ◌∷◌, String, str_len, is_some,
  if◌then◌else◌,
}
use document_classifier.Exec.{Error, Result, ok, err, Outcome, working, exited, crashed}
use document_classifier.Vault.{Secret, get_jwt_signing_key, get_postgres_dsn, get_minio_credentials}
use document_classifier.Api.Deps.{AppState, Enforcer, after_prefix}

-- `s.replace(pattern, "")` for a pattern that is not empty; `skip` characters belong to a pattern that was
-- found before.
unfoldable pub remove_text : String → ℕ → String → String
remove_text pattern skip String.[] = ""
remove_text pattern (suc skip) (String.◌∷◌ c s) = remove_text pattern skip s
remove_text pattern zero (String.◌∷◌ c s) =
    let found = remove_text pattern (str_len pattern - 1) s in
    let kept = String.◌∷◌ c (remove_text pattern zero s) in
    if is_some (after_prefix pattern (String.◌∷◌ c s)) then found else kept

-- A casbin enforcer with its policy, and the subjects of the policy.
pub record Loaded : Type 0 where
  pub enforcer : Enforcer
  pub subjects : List String

-- `app.state`, with the overrides of the dependencies and the module's `_cache_redis`.
pub record State (Engine Blob Redis : Type 0) : Type 0 where
  pub db_engine : Option Engine
  -- The session factory is made of its engine.
  pub db : Option Engine
  pub jwt_signing_key : Option String
  pub blob : Option Blob
  pub enforcer : Option Enforcer
  pub cache_redis : Option Redis
  pub fakes : Bool
  -- The connection that `close_cache` closes, and whether the engine has connections.
  pub open_redis : Option Redis
  pub engine_open : Bool

unfoldable pub new_state : {Engine Blob Redis : Type 0} → State Engine Blob Redis
new_state = record {
  db_engine = none;
  db = none;
  jwt_signing_key = none;
  blob = none;
  enforcer = none;
  cache_redis = none;
  fakes = false;
  open_redis = none;
  engine_open = false;
}

-- What the dependencies read of it.
unfoldable pub app_state : {Engine Blob Redis : Type 0} → State Engine Blob Redis → AppState
app_state s = record {
  jwt_signing_key = elim s.jwt_signing_key [ none ↦ "" | some key ↦ key ];
  enforcer = s.enforcer;
}

module _ {Engine Blob Redis : Type 0} (vault : String → Result (Option Secret))
    (of_client : Error → Bool) (create_engine : String → Result Engine)
    (minio_blob : String × String → Result Blob) (ensure_buckets : Blob → Result (Unit {0}))
    (load_enforcer : String → Result Loaded) (redis_from_url : Result Redis) where
  abbrev Booted : Type 0
  Booted = Outcome × State Engine Blob Redis

  unfoldable pub init_cache : State Engine Blob Redis → Result (Unit {0}) × State Engine Blob Redis
  init_cache s = elim redis_from_url [
    | err e ↦ (err e, s)
    | ok redis ↦ (ok tt, record s { cache_redis = some redis; open_redis = some redis })
  ]

  -- Whatever fails here, the application goes on without a blob storage.
  unfoldable pub wire_blob : State Engine Blob Redis → State Engine Blob Redis
  wire_blob s = elim (get_minio_credentials vault of_client) [
    | err e ↦ record s { blob = none }
    | ok keys ↦ elim (minio_blob keys) [
      | err e ↦ record s { blob = none }
      | ok blob ↦ elim (ensure_buckets blob) [
        | err e ↦ record s { blob = none }
        | ok _ ↦ record s { blob = some blob }
      ]
    ]
  ]

  -- Behind the blob storage.
  unfoldable pub wire_policy : String → State Engine Blob Redis → Booted
  wire_policy dsn s = elim (load_enforcer (remove_text "+asyncpg" 0 dsn)) [
    | err e ↦ (crashed e, s)
    | ok loaded ↦ elim loaded.subjects [
      | [] ↦ (exited 1, s)
      | subject ∷ subjects ↦
          let (r, s') = init_cache (record s { enforcer = some loaded.enforcer }) in
          elim r [ ok _ ↦ (working, s') | err e ↦ (crashed e, s') ]
    ]
  ]

  unfoldable pub boot_production : State Engine Blob Redis → Booted
  boot_production s = elim (get_jwt_signing_key vault of_client) [
    | err e ↦ (exited 1, s)
    | ok jwt_key ↦ elim (get_postgres_dsn vault of_client) [
      | err e ↦ (crashed e, s)
      | ok dsn ↦ elim (create_engine dsn) [
        | err e ↦ (crashed e, s)
        | ok engine ↦ wire_policy dsn (
            wire_blob (record s {
              db_engine = some engine;
              db = some engine;
              jwt_signing_key = some jwt_key;
              engine_open = true;
            }))
      ]
    ]
  ]

  -- `load_file` is the enforcer of the policy file.
  unfoldable pub boot_with_fakes : Result Loaded → State Engine Blob Redis → Booted
  boot_with_fakes load_file s =
      let s1 = record s { jwt_signing_key = some "dev-secret-key-change-in-production" } in
      elim load_file [
        | err e ↦ (crashed e, s1)
        | ok loaded ↦
            let (r, s2) =
              init_cache (record s1 { enforcer = some loaded.enforcer; fakes = true }) in
            (working, s2)
      ]

  -- The lifespan up to its `yield`, and behind it.
  unfoldable pub startup : Bool → Result Loaded → State Engine Blob Redis → Booted
  startup use_fakes load_file s =
      if use_fakes then boot_with_fakes load_file s else boot_production s

  unfoldable pub shutdown : Bool → State Engine Blob Redis → State Engine Blob Redis
  shutdown use_fakes s = if use_fakes then s else elim s.db_engine [
    | none ↦ record s { open_redis = none }
    | some engine ↦ record s { open_redis = none; engine_open = false }
  ]
