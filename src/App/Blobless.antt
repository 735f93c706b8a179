-- ===== src/App/Blobless.antt =====
-- A start of backend/app/main.py whose blob storage fails.
use document_classifier.Prelude.{
  ◌≡◌, sym, subst, ◌∙◌, Bool, true, false, Option, some, String, arith, inl, inr,
}
use document_classifier.Exec.{Error, Result, Outcome, Result-cases}
use document_classifier.Vault.{Secret, get_jwt_signing_key, get_postgres_dsn}
use document_classifier.App.Boot.{
  Loaded, State, init_cache, wire_blob, wire_policy, boot_production, boot_with_fakes, startup,
}
use document_classifier.App.Serving.{forget_blob}

module _ {Engine Blob Redis : Type 0} where
  -- The same end, and the same state but for the blob storage.
  abbrev pub SameBut :
      Outcome × State Engine Blob Redis → Outcome × State Engine Blob Redis → Type 0
  SameBut x y = (x.0 ≡ y.0) × (forget_blob x.1 ≡ forget_blob y.1)

same_of :
    {Engine Blob Redis : Type 0} {x x' y y' : Outcome × State Engine Blob Redis}
    → x ≡ x'
    → y ≡ y'
    → SameBut x' y'
    → SameBut x y
same_of {x' = x'} {y = y} p q h =
    subst (λ u. SameBut u y) (sym p) (subst (λ v. SameBut x' v) (sym q) h)

wire_blob_keeps :
    {Engine Blob Redis : Type 0} (vault : String → Result (Option Secret))
    (of_client : Error → Bool) (create_engine : String → Result Engine)
    (minio_blob : String × String → Result Blob) (ensure_buckets : Blob → Result (Unit {0}))
    (load_enforcer : String → Result Loaded) (redis_from_url : Result Redis)
    (s : State Engine Blob Redis)
    → forget_blob (
        wire_blob vault of_client create_engine minio_blob ensure_buckets load_enforcer
          redis_from_url s)
      ≡ forget_blob s
unfolding wire_blob
wire_blob_keeps vault of_client create_engine minio_blob ensure_buckets load_enforcer redis_from_url
      s =
    ground arith

module _ {Engine Blob Redis : Type 0} (vault : String → Result (Option Secret))
    (of_client : Error → Bool) (create_engine : String → Result Engine)
    (minio_blob minio_blob' : String × String → Result Blob)
    (ensure_buckets ensure_buckets' : Blob → Result (Unit {0}))
    (load_enforcer : String → Result Loaded) (redis_from_url : Result Redis) where
  policy_same :
      (dsn : String) (s t : State Engine Blob Redis)
      → forget_blob s ≡ forget_blob t
      → SameBut
          (wire_policy vault of_client create_engine minio_blob ensure_buckets load_enforcer
            redis_from_url dsn s)
          (wire_policy vault of_client create_engine minio_blob' ensure_buckets' load_enforcer
            redis_from_url dsn t)
  unfolding wire_policy init_cache
  policy_same dsn s t h = (ground arith, ground arith)

  blob_same :
      (s : State Engine Blob Redis)
      → forget_blob (
          wire_blob vault of_client create_engine minio_blob ensure_buckets load_enforcer
            redis_from_url s)
        ≡ forget_blob (
            wire_blob vault of_client create_engine minio_blob' ensure_buckets' load_enforcer
              redis_from_url s)
  blob_same s =
      wire_blob_keeps vault of_client create_engine minio_blob ensure_buckets load_enforcer
        redis_from_url s
      ∙ sym (
          wire_blob_keeps vault of_client create_engine minio_blob' ensure_buckets' load_enforcer
            redis_from_url s)

  production_same :
      (s : State Engine Blob Redis)
      → SameBut
          (boot_production vault of_client create_engine minio_blob ensure_buckets load_enforcer
            redis_from_url s)
          (boot_production vault of_client create_engine minio_blob' ensure_buckets' load_enforcer
            redis_from_url s)
  unfolding boot_production
  production_same s = elim (Result-cases (get_jwt_signing_key vault of_client)) [
    | inr (error, e) ↦ (ground arith, ground arith)
    | inl (jwt_key, e) ↦ elim (Result-cases (get_postgres_dsn vault of_client)) [
      | inr (error, k) ↦ (ground arith, ground arith)
      | inl (dsn, k) ↦ elim (Result-cases (create_engine dsn)) [
        | inr (error, l) ↦ (ground arith, ground arith)
        | inl (engine, l) ↦
            let s1 : State Engine Blob Redis = record s {
              db_engine = some engine;
              db = some engine;
              jwt_signing_key = some jwt_key;
              engine_open = true;
            } in
            let first : boot_production vault of_client create_engine minio_blob ensure_buckets
                  load_enforcer redis_from_url s
                ≡ wire_policy vault of_client create_engine minio_blob ensure_buckets load_enforcer
                    redis_from_url dsn
                    (wire_blob vault of_client create_engine minio_blob ensure_buckets load_enforcer
                      redis_from_url s1) =
              ground arith in
            let second : boot_production vault of_client create_engine minio_blob' ensure_buckets'
                  load_enforcer redis_from_url s
                ≡ wire_policy vault of_client create_engine minio_blob' ensure_buckets'
                    load_enforcer redis_from_url dsn
                    (wire_blob vault of_client create_engine minio_blob' ensure_buckets'
                      load_enforcer redis_from_url s1) =
              ground arith in
            same_of first second (
              policy_same dsn
                (wire_blob vault of_client create_engine minio_blob ensure_buckets load_enforcer
                  redis_from_url s1)
                (wire_blob vault of_client create_engine minio_blob' ensure_buckets' load_enforcer
                  redis_from_url s1)
                (blob_same s1))
      ]
    ]
  ]

  -- Two starts that differ in what MinIO does end in the same way, and in the same state but for the blob
  -- storage: a storage that cannot be reached stops no start and changes nothing else.
  pub startup-SameBut :
      (use_fakes : Bool) (load_file : Result Loaded) (s : State Engine Blob Redis)
      → SameBut
          (startup vault of_client create_engine minio_blob ensure_buckets load_enforcer
            redis_from_url use_fakes load_file s)
          (startup vault of_client create_engine minio_blob' ensure_buckets' load_enforcer
            redis_from_url use_fakes load_file s)
  unfolding startup boot_with_fakes init_cache
  startup-SameBut true load_file s = (ground arith, ground arith)
  startup-SameBut false load_file s = production_same s
