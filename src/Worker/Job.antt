-- ===== src/Worker/Job.antt =====
-- backend/worker/handler.py: one classification job. The predictor and the drawing of the overlay are
-- arguments, and so are the keys that `uuid4` draws, the time, and the cache backend.
use document_classifier.Prelude.{ℕ, ◌+◌, Bool, true, false, none, some, List, [], ◌∷◌, String}
use document_classifier.Exec.{
  Error, Result, ok, err, Exec, pure, lift, ◌>>=◌, ◌>>◌, index_error, os_error, connection_error,
  timeout_error,
}
use document_classifier.Exec.Retry.{retry}
use document_classifier.Contracts.{ClassifyJob, PredictionLabel, PredictionOut}
use document_classifier.Services.World.{CacheBackend, Codecs, World, in_session}
use document_classifier.Services.Audit.{Stamp}
use document_classifier.Services.Predictions as Service
use document_classifier.Ingest.{Fault, works, fails_before, fails_after}
use document_classifier.Blob.{Bytes, Object, overlay_key, get, put}
use document_classifier.Worker.Labels.{label_to_enum}

-- What a job reaches: the objects of the storage, and the tables with the cache.
pub record Station (Store : Type 0) : Type 0 where
  pub objects : List Object
  pub world : World Store
  -- How many keys `uuid4` has drawn.
  pub drawn : ℕ
  -- What becomes of the next calls; the calls behind its end work.
  pub schedule : List Fault

module _ {Store A : Type 0} where
  -- The call `work` under the first fault of the schedule.
  unfoldable pub faulty : List Fault → Exec (Station Store) A → Exec (Station Store) A
  faulty [] work s = work s
  faulty (works ∷ faults) work s = work (record s { schedule = faults })
  faulty (fails_before e ∷ faults) work s = (err e, record s { schedule = faults })
  faulty (fails_after e ∷ faults) work s = (err e, (work (record s { schedule = faults })).1)

  unfoldable pub remote : Exec (Station Store) A → Exec (Station Store) A
  remote work s = faulty s.schedule work s

  unfoldable pub on_objects : Exec (List Object) A → Exec (Station Store) A
  on_objects m s = let (r, o) = m s.objects in (r, record s { objects = o })

  unfoldable pub on_world : Exec (World Store) A → Exec (Station Store) A
  on_world m s = let (r, w) = m s.world in (r, record s { world = w })

-- `retry_if_exception_type((OSError, ConnectionError, TimeoutError))`
abbrev pub transient : Error → Bool
transient os_error = true
transient connection_error = true
transient timeout_error = true
transient _ = false

-- The list comprehension of `top5_converted`.
unfoldable pub convert_top5 : List (String × ℕ) → Result (List (PredictionLabel × ℕ))
convert_top5 [] = ok []
convert_top5 ((text, confidence) ∷ rest) = elim (label_to_enum text) [
  | err e ↦ err e
  | ok label ↦ elim (convert_top5 rest) [
    | ok labels ↦ ok ((label, confidence) ∷ labels)
    | err e ↦ err e
  ]
]

-- `top5_list[0]`
unfoldable pub first_of : List (String × ℕ) → Result (String × ℕ)
first_of [] = err index_error
first_of (top1 ∷ rest) = ok top1

module _ (C : CacheBackend) (J : Codecs) (predict_topk : Bytes → ℕ → Result (List (String × ℕ) × ℕ))
    (render_overlay : Bytes → String → ℕ → Result Bytes) (model_version : String)
    (uuids : ℕ → String) (stamp : Stamp) where
  -- `str(uuid.uuid4())`
  unfoldable pub draw : Exec (Station C.Store) String
  draw s = (ok (uuids s.drawn), record s { drawn = s.drawn + 1 })

  -- `WorkerPredictionService.record_prediction`: one session, and its commit.
  unfoldable pub record_in_session : PredictionOut → Exec (World C.Store) PredictionOut
  record_in_session prediction =
      in_session (Service.record_prediction C J stamp prediction prediction.document_id)

  unfoldable pub prediction_record :
      ClassifyJob → String → PredictionLabel → ℕ → List (PredictionLabel × ℕ) → ℕ → PredictionOut
  prediction_record job id label top1_confidence top5 latency_ms = record {
    id = id;
    batch_id = job.batch_id;
    document_id = job.document_id;
    label = label;
    top1_confidence = top1_confidence;
    top5 = top5;
    overlay_url = some (overlay_key job.batch_id job.document_id);
    model_version = model_version;
    created_at = some stamp.now;
    latency_ms = some latency_ms;
    comment = none;
    comment_color = none;
    document_name = none;
  }

  -- The overlay is uploaded, and the prediction recorded behind it.
  unfoldable pub store_result :
      ClassifyJob
      → Bytes
      → PredictionLabel
      → ℕ
      → List (PredictionLabel × ℕ)
      → ℕ
      → Exec (Station C.Store) (Unit {0})
  store_result job overlay label top1_confidence top5 latency_ms = do
    remote (on_objects (put (overlay_key job.batch_id job.document_id) overlay))
    id ← draw
    remote (
        on_world
          (record_in_session (prediction_record job id label top1_confidence top5 latency_ms)))
    pure tt

  -- What is made of the image.
  unfoldable pub classify : ClassifyJob → Bytes → Exec (Station C.Store) (Unit {0})
  classify job image_bytes = do
    predicted ← lift (predict_topk image_bytes 5)
    top1 ← lift (first_of predicted.0)
    label ← lift (label_to_enum top1.0)
    top5 ← lift (convert_top5 predicted.0)
    overlay ← lift (render_overlay image_bytes top1.0 top1.1)
    store_result job overlay label top1.1 top5 predicted.1

  -- One attempt.
  unfoldable pub attempt_job : ClassifyJob → Exec (Station C.Store) (Unit {0})
  attempt_job job = do
    image_bytes ← remote (on_objects (get job.blob_key))
    classify job image_bytes

  unfoldable pub classify_job : ClassifyJob → Exec (Station C.Store) (Unit {0})
  classify_job job = retry transient (attempt_job job) 2
