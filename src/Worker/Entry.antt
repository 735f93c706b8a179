-- ===== src/Worker/Entry.antt =====
-- The entry point of backend/worker/handler.py, with the dependencies that are injected at the start.
use document_classifier.Prelude.{ℕ, Option, none, some, String}
use document_classifier.Exec.{Result, ok, err, Exec, runtime_error}
use document_classifier.Services.World.{CacheBackend, Codecs}
use document_classifier.Services.Audit.{Stamp}
use document_classifier.Blob.{Bytes}
use document_classifier.Classifier.Predictor.{Torch, Predictor, predict_topk}
use document_classifier.Worker.Job.{Station, classify_job}
use document_classifier.Worker.Payload.{Payload, job_of_payload}

-- `_Dependencies`
pub record Dependencies (P B S : Type 0) : Type 0 where
  pub predictor : Option P
  pub blob : Option B
  pub prediction_service : Option S
  pub model_version : Option String

unfoldable pub new_dependencies : {P B S : Type 0} → Dependencies P B S
new_dependencies = record {
  predictor = none;
  blob = none;
  prediction_service = none;
  model_version = none;
}

unfoldable pub inject_dependencies :
    {P B S : Type 0} → P → B → S → String → Dependencies P B S → Dependencies P B S
inject_dependencies predictor blob prediction_service model_version deps = record deps {
  predictor = some predictor;
  blob = some blob;
  prediction_service = some prediction_service;
  model_version = some model_version;
}

-- All four, or none where one is missing.
unfoldable pub injected : {P B S : Type 0} → Dependencies P B S → Option (P × B × S × String)
injected deps = elim deps.predictor [
  | none ↦ none
  | some p ↦ elim deps.blob [
    | none ↦ none
    | some b ↦ elim deps.prediction_service [
      | none ↦ none
      | some s ↦ elim deps.model_version [ none ↦ none | some v ↦ some (p, b, s, v) ]
    ]
  ]
]

module _ (T : Torch) (C : CacheBackend) (J : Codecs)
    (render_overlay : Bytes → String → ℕ → Result Bytes) (uuids : ℕ → String) (stamp : Stamp)
    {B S : Type 0} where
  -- `classify_job` of a payload.
  unfoldable pub handle :
      Dependencies (Predictor T) B S → Payload → Exec (Station C.Store) (Unit {0})
  handle deps payload s = elim (job_of_payload payload) [
    | err e ↦ (err e, s)
    | ok job ↦ elim (injected deps) [
      | none ↦ (err runtime_error, s)
      | some (predictor, _, _, version) ↦
          classify_job C J (predict_topk T predictor) render_overlay version uuids stamp job s
    ]
  ]
