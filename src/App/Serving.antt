-- ===== src/App/Serving.antt =====
-- What a start of backend/app/main.py gives to the requests.
use document_classifier.Prelude.{
  ◌≡◌, refl, ap, ◌∙◌, Bool, true, false, ◌||◌, Option, none, some, String, str_eq, is_some, arith,
  inl, inr,
}
use document_classifier.Exec.{Error, Result, ok, err, working, Result-cases, http}
use document_classifier.Vault.{
  Secret, require, read_secret, read_required, get_jwt_signing_key, get_postgres_dsn,
}
use document_classifier.Api.Deps.{AppState, Enforcer, signing_key_of, get_enforcer}
use document_classifier.App.Boot.{
  remove_text, Loaded, State, app_state, init_cache, wire_blob, wire_policy, boot_production,
  boot_with_fakes, startup,
}

require_given :
    (secret : Secret) (name key : String) → require secret name ≡ ok key → str_eq key "" ≡ false
unfolding require
require_given secret name key h = ground arith

signing_key_given :
    (vault : String → Result (Option Secret)) (of_client : Error → Bool) (key : String)
    → get_jwt_signing_key vault of_client ≡ ok key
    → str_eq key "" ≡ false
unfolding get_jwt_signing_key read_required
signing_key_given vault of_client key h =
    elim (Result-cases (read_secret vault of_client "jwt/signing_key")) [
      | inl (secret, e) ↦ require_given secret "key" key (ground arith)
      | inr (error, e) ↦ absurd (ground arith)
    ]

signing_key_set :
    (app : AppState) (key : String)
    → app.jwt_signing_key ≡ key
    → str_eq key "" ≡ false
    → signing_key_of app ≡ ok key
unfolding signing_key_of
signing_key_set app key k given = ground arith

enforcer_set :
    (app : AppState) (enforcer : Enforcer)
    → app.enforcer ≡ some enforcer
    → get_enforcer app ≡ ok enforcer
unfolding get_enforcer
enforcer_set app enforcer e = ap (λ o. elim o [ some e ↦ ok e | none ↦ err (http 503) ]) e

module _ {Engine Blob Redis : Type 0} where
  -- What the dependencies of a request look for: a signing key, an enforcer, and a session or a fake.
  abbrev pub IsServing : State Engine Blob Redis → Type 0
  IsServing s =
      (key : String) × (enforcer : Enforcer) × (signing_key_of (app_state s) ≡ ok key)
      × (get_enforcer (app_state s) ≡ ok enforcer)
      × ((is_some s.db || s.fakes) ≡ true)

  abbrev pub forget_blob : State Engine Blob Redis → State Engine Blob Redis
  forget_blob s = record s { blob = none }

module _ {Engine Blob Redis : Type 0} (vault : String → Result (Option Secret))
    (of_client : Error → Bool) (create_engine : String → Result Engine)
    (minio_blob : String × String → Result Blob) (ensure_buckets : Blob → Result (Unit {0}))
    (load_enforcer : String → Result Loaded) (redis_from_url : Result Redis) where
  policy_ready :
      (dsn : String) (s s' : State Engine Blob Redis)
      → wire_policy vault of_client create_engine minio_blob ensure_buckets load_enforcer
          redis_from_url dsn s
        ≡ (working, s')
      → (enforcer : Enforcer) × (s'.enforcer ≡ some enforcer)
        × (s'.db ≡ s.db)
        × (s'.jwt_signing_key ≡ s.jwt_signing_key)
  unfolding wire_policy init_cache
  policy_ready dsn s s' h = elim (Result-cases (load_enforcer (remove_text "+asyncpg" 0 dsn))) [
    | inr (error, e) ↦ absurd (ground arith)
    | inl (loaded, e) ↦ (loaded.enforcer, ground arith, ground arith, ground arith)
  ]

  -- The state that the policy is wired into.
  abbrev wired : String → Engine → State Engine Blob Redis → State Engine Blob Redis
  wired jwt_key engine s =
      wire_blob vault of_client create_engine minio_blob ensure_buckets load_enforcer redis_from_url
        (record s {
          db_engine = some engine;
          db = some engine;
          jwt_signing_key = some jwt_key;
          engine_open = true;
        })

  wired_keeps :
      (jwt_key : String) (engine : Engine) (s : State Engine Blob Redis)
      → ((wired jwt_key engine s).db ≡ some engine)
        × ((wired jwt_key engine s).jwt_signing_key ≡ some jwt_key)
  unfolding wire_blob
  wired_keeps jwt_key engine s = (ground arith, ground arith)

  serving :
      (s : State Engine Blob Redis) (key : String) (enforcer : Enforcer)
      → s.jwt_signing_key ≡ some key
      → str_eq key "" ≡ false
      → s.enforcer ≡ some enforcer
      → (is_some s.db || s.fakes) ≡ true
      → IsServing s
  unfolding app_state
  serving s key enforcer k given e d =
      let named : (app_state s).jwt_signing_key ≡ key =
        ap (λ o. elim o [ none ↦ "" | some key ↦ key ]) k in
      (
        key,
        enforcer,
        signing_key_set (app_state s) key named given,
        enforcer_set (app_state s) enforcer e,
        d,
      )

  production_serves :
      (s s' : State Engine Blob Redis)
      → boot_production vault of_client create_engine minio_blob ensure_buckets load_enforcer
          redis_from_url s
        ≡ (working, s')
      → IsServing s'
  unfolding boot_production
  production_serves s s' h = elim (Result-cases (get_jwt_signing_key vault of_client)) [
    | inr (error, e) ↦ absurd (ground arith)
    | inl (jwt_key, e) ↦ elim (Result-cases (get_postgres_dsn vault of_client)) [
      | inr (error, k) ↦ absurd (ground arith)
      | inl (dsn, k) ↦ elim (Result-cases (create_engine dsn)) [
        | inr (error, l) ↦ absurd (ground arith)
        | inl (engine, l) ↦
            let ends : wire_policy vault of_client create_engine minio_blob ensure_buckets
                  load_enforcer redis_from_url dsn (wired jwt_key engine s)
                ≡ (working, s') =
              ground arith in
            let (enforcer, x, d, j) = policy_ready dsn (wired jwt_key engine s) s' ends in
            let (d', j') = wired_keeps jwt_key engine s in
            serving s' jwt_key enforcer (j ∙ j') (signing_key_given vault of_client jwt_key e) x
              (rw (d ∙ d') refl)
      ]
    ]
  ]

  fakes_serve :
      (load_file : Result Loaded) (s s' : State Engine Blob Redis)
      → boot_with_fakes vault of_client create_engine minio_blob ensure_buckets load_enforcer
          redis_from_url load_file s
        ≡ (working, s')
      → IsServing s'
  unfolding boot_with_fakes init_cache
  fakes_serve load_file s s' h = elim (Result-cases load_file) [
    | inr (error, e) ↦ absurd (ground arith)
    | inl (loaded, e) ↦
        serving s' "dev-secret-key-change-in-production" loaded.enforcer (ground arith) refl
          (ground arith) (ground arith)
  ]

  -- A start that goes on to its work, with fakes or without, has set what every request looks for: a signing
  -- key that is not empty, an enforcer, and a session factory or the fakes of the repositories. So no
  -- request is answered by a 503 for the key or the enforcer.
  pub startup-IsServing :
      (use_fakes : Bool) (load_file : Result Loaded) (s s' : State Engine Blob Redis)
      → startup vault of_client create_engine minio_blob ensure_buckets load_enforcer redis_from_url
          use_fakes load_file s
        ≡ (working, s')
      → IsServing s'
  unfolding startup
  startup-IsServing true load_file s s' h = fakes_serve load_file s s' h
  startup-IsServing false load_file s s' h = production_serves s s' h
