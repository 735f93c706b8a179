-- ===== src/Worker/Boot.antt =====
-- backend/worker/__main__.py: what happens before the worker takes its first job. The files, the JSON
-- parser, the hash, torch, the client of Vault and the constructors of the adapters and of the queue's
-- worker are arguments.
use Prim.Native.String.{◌++◌}
use document_classifier.Prelude.{
  if◌then◌else◌, ℕ, zero, suc, Bool, true, false, Option, none, some, String,
}
use document_classifier.Exec.{
  Outcome, working, exited, crashed, Error, Result, ok, err, key_error, os_error, connection_error,
  timeout_error, other_error,
}
use document_classifier.Classifier.StartupChecks.{
  Entry, Reading, not_json, stopped, json, no_object, object, ModelCard, run_all_startup_checks,
}
use document_classifier.Classifier.Predictor.{Torch, Predictor, get_predictor}
use document_classifier.Vault.{Secret, get_minio_credentials, get_postgres_dsn}
use document_classifier.Worker.Entry.{Dependencies, inject_dependencies}

-- `s[:n]`
unfoldable pub str_take : ℕ → String → String
str_take zero s = ""
str_take (suc n) String.[] = ""
str_take (suc n) (String.◌∷◌ c s) = String.◌∷◌ c (str_take n s)

-- What the version is made of: the values of the card as texts.
pub record VersionCard : Type 0 where
  pub backbone : Option String
  pub weights_enum : Option String
  pub freeze_policy : Option String
  pub sha256 : Option String
  pub trained_at : Option String

-- OSError and its subclasses.
unfoldable pub is_os_error : Error → Bool
is_os_error os_error = true
is_os_error connection_error = true
is_os_error timeout_error = true
is_os_error _ = false

-- `model_card[key]`
abbrev required : Option String → Result String
required none = err key_error
required (some s) = ok s

unfoldable pub full_version : VersionCard → Result String
full_version card = elim (required card.backbone) [
  | err e ↦ err e
  | ok backbone ↦ elim (required card.weights_enum) [
    | err e ↦ err e
    | ok weights_enum ↦ elim (required card.freeze_policy) [
      | err e ↦ err e
      | ok freeze_policy ↦ elim (required card.sha256) [
        | err e ↦ err e
        | ok sha256 ↦ elim (required card.trained_at) [
          | err e ↦ err e
          | ok trained_at ↦ ok (
              backbone
              ++ "_"
              ++ weights_enum
              ++ "_"
              ++ freeze_policy
              ++ "_"
              ++ str_take 8 sha256
              ++ "_"
              ++ trained_at)
        ]
      ]
    ]
  ]
]

-- `predictions.model_version` is VARCHAR(50).
unfoldable pub version_of : VersionCard → Result String
version_of card = elim (full_version card) [ ok text ↦ ok (str_take 50 text) | err e ↦ err e ]

module _ {Score File Adapter Recorder : Type 0} (T : Torch) (files : String → Entry File)
    (parse : File → Reading (ModelCard Score)) (hexdigest : File → String)
    (below : Score → Score → Bool) (min_top1 : Score) (read_card : String → Reading VersionCard)
    (vault : String → Result (Option Secret)) (of_client : Error → Bool)
    (worker_blob : String × String → Result Adapter) (worker_service : String → Result Recorder)
    (fake_blob : Adapter) (fake_service : Recorder) (open_queue : Result (Unit {0}))
    (weights_path model_card_path : String) where
  -- The adapters: fakes, or what Vault has the keys of.
  unfoldable pub make_adapters : Bool → Result (Adapter × Recorder)
  make_adapters true = ok (fake_blob, fake_service)
  make_adapters false = elim (get_minio_credentials vault of_client) [
    | err e ↦ err e
    | ok keys ↦ elim (worker_blob keys) [
      | err e ↦ err e
      | ok blob ↦ elim (get_postgres_dsn vault of_client) [
        | err e ↦ err e
        | ok dsn ↦ elim (worker_service dsn) [ err e ↦ err e | ok service ↦ ok (blob, service) ]
      ]
    ]
  ]

  abbrev Started : Type 0
  Started = Outcome × Dependencies (Predictor T) Adapter Recorder

  -- Behind the version. `open_queue` is `redis.from_url` and the constructor of `Worker`: what they raise is
  -- not caught, and comes when the dependencies are injected.
  unfoldable pub connect :
      Bool → Predictor T → String → Dependencies (Predictor T) Adapter Recorder → Started
  connect use_fakes predictor version deps = elim (make_adapters use_fakes) [
    | err e ↦ (crashed e, deps)
    | ok (blob, service) ↦
        let deps' = inject_dependencies predictor blob service version deps in
        elim open_queue [ err e ↦ (crashed e, deps') | ok _ ↦ (working, deps') ]
  ]

  -- Behind the predictor. An OSError or a JSONDecodeError of the card is caught. A card that is no object
  -- cannot be read by a key: a TypeError.
  unfoldable pub name_version :
      Bool → Predictor T → Dependencies (Predictor T) Adapter Recorder → Started
  name_version use_fakes predictor deps = elim (read_card model_card_path) [
    | not_json ↦ (exited 1, deps)
    | stopped e ↦ if is_os_error e then (exited 1, deps) else (crashed e, deps)
    | json no_object ↦ (crashed other_error, deps)
    | json (object card) ↦ elim (version_of card) [
      | err e ↦ (crashed e, deps)
      | ok version ↦ connect use_fakes predictor version deps
    ]
  ]

  unfoldable pub start :
      Bool → Option (Predictor T) → Dependencies (Predictor T) Adapter Recorder → Started
  start use_fakes singleton deps =
      elim (run_all_startup_checks files parse hexdigest below weights_path model_card_path min_top1
        (some weights_path) (some model_card_path) none) [
          | err e ↦ (exited 1, deps)
          | ok _ ↦
              let (r, singleton') = get_predictor T weights_path (some weights_path) singleton in
              elim r [
                | err e ↦ (crashed e, deps)
                | ok predictor ↦ name_version use_fakes predictor deps
              ]
        ]
