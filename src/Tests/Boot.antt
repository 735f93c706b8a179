-- ===== src/Tests/Boot.antt =====
-- Runs of the start of the API.
use document_classifier.Prelude.{
  ◌≡◌, refl, true, false, Bool, Option, none, some, [], ◌∷◌, String, str_eq, if◌then◌else◌,
}
use document_classifier.Exec.{Error, Result, ok, err, working, os_error}
use document_classifier.Vault.{Secret, Value, text}
use document_classifier.Api.Deps.{policy, allows}
use document_classifier.App.Boot.{Loaded, State, new_state, startup}
use document_classifier.App.Serving.{IsServing, startup-IsServing}
use document_classifier.App.Blobless.{SameBut, startup-SameBut}

abbrev vault : String → Result (Option Secret)
vault path =
    if str_eq path "jwt/signing_key"
    then ok (some (("key", text "signing key") ∷ []))
    else if str_eq path "postgres/dsn"
    then ok (some (("dsn", text "postgresql+asyncpg://db") ∷ []))
    else ok (some (("access_key", text "a") ∷ ("secret_key", text "b") ∷ []))

abbrev of_client : Error → Bool
of_client e = true

abbrev create_engine : String → Result String
create_engine dsn = ok dsn

abbrev minio_blob : String × String → Result String
minio_blob keys = ok "blob"

abbrev ready : String → Result (Unit {0})
ready blob = ok tt

abbrev unreachable : String → Result (Unit {0})
unreachable blob = err os_error

abbrev load_enforcer : String → Result Loaded
load_enforcer dsn =
    if str_eq dsn "postgresql://db"
    then ok (record { enforcer = allows policy; subjects = "admin" ∷ [] })
    else err os_error

abbrev redis : Result String
redis = ok "redis"

abbrev load_file : Result Loaded
load_file = ok (record { enforcer = allows policy; subjects = "admin" ∷ [] })

abbrev started : State String String String
started = record {
  db_engine = some "postgresql+asyncpg://db";
  db = some "postgresql+asyncpg://db";
  jwt_signing_key = some "signing key";
  blob = none;
  enforcer = some (allows policy);
  cache_redis = some "redis";
  fakes = false;
  open_redis = some "redis";
  engine_open = true;
}

starts_without_blob :
    startup vault of_client create_engine minio_blob unreachable load_enforcer redis false load_file
      new_state
    ≡ (working, started)
unfolding startup document_classifier.App.Boot.boot_production
    document_classifier.Vault.get_jwt_signing_key document_classifier.Vault.get_postgres_dsn
    document_classifier.App.Boot.wire_policy document_classifier.App.Boot.remove_text
    document_classifier.Api.Deps.after_prefix document_classifier.App.Boot.init_cache
    document_classifier.App.Boot.wire_blob document_classifier.Vault.get_minio_credentials new_state
starts_without_blob = refl

startup-IsServing_example : IsServing started
startup-IsServing_example =
    startup-IsServing vault of_client create_engine minio_blob unreachable load_enforcer redis false
      load_file new_state started starts_without_blob

startup-SameBut_example :
    SameBut
      (startup vault of_client create_engine minio_blob ready load_enforcer redis false load_file
        new_state)
      (startup vault of_client create_engine minio_blob unreachable load_enforcer redis false
        load_file new_state)
startup-SameBut_example =
    startup-SameBut vault of_client create_engine minio_blob minio_blob ready unreachable
      load_enforcer redis false load_file new_state
