-- ===== src/Worker/Overlays.antt =====
-- No prediction points to an overlay that is not in the storage, however the calls of a job fail.
use document_classifier.Prelude.{
  ℕ, ◌+◌, ◌≡◌, ◌⊎◌, refl, some, List, String, arith, inl, inr, All-map,
}
use document_classifier.Exec.{Result, ok, err, lift, Result-cases}
use document_classifier.Exec.Hoare.{After, bind-After, After-weaken}
use document_classifier.Exec.Retry.{retry-After}
use document_classifier.Contracts.{ClassifyJob, PredictionLabel, PredictionOut}
use document_classifier.Db.{Prediction}
use document_classifier.Services.World.{CacheBackend, Codecs, World, in_session}
use document_classifier.Services.Audit.{Stamp}
use document_classifier.Services.Cache.{cache_clear}
use document_classifier.Services.Predictions as Service
use document_classifier.Services.Predictions.{record_prediction_db}
use document_classifier.Ingest.{Fault}
use document_classifier.Blob.{Bytes, overlay_key, get, put}
use document_classifier.Worker.Labels.{label_to_enum}
use document_classifier.Worker.Job.{
  Station, remote, on_objects, on_world, transient, draw, record_in_session, prediction_record,
  store_result, classify, attempt_job, classify_job, convert_top5, first_of,
}
use document_classifier.Worker.Keeps.{record-Overlays}
use document_classifier.Worker.Shown.{
  Shown, HasOverlays, IsUploaded, Shown-cons, Shown-own, overlay_of, put-overlay_key, remote-After,
  After-work,
}

module _ (C : CacheBackend) (J : Codecs) (predict_topk : Bytes → ℕ → Result (List (String × ℕ) × ℕ))
    (render_overlay : Bytes → String → ℕ → Result Bytes) (model_version : String)
    (uuids : ℕ → String) (stamp : Stamp) (job : ClassifyJob) where
  abbrev Kept : {A : Type 0} → A → Station C.Store → Type 0
  Kept a s = HasOverlays s

  abbrev Uploaded : {A : Type 0} → A → Station C.Store → Type 0
  Uploaded a s = IsUploaded job.batch_id job.document_id s

  put-Uploaded :
      (overlay : Bytes) (s : Station C.Store)
      → HasOverlays s
      → After HasOverlays Uploaded
          (on_objects (put (overlay_key job.batch_id job.document_id) overlay) s)
  unfolding on_objects
  put-Uploaded overlay s h =
      rw (put-overlay_key job.batch_id job.document_id overlay s.objects) (record {
        shown =
            All-map
              (λ (r : Prediction) k.
                Shown-cons (overlay_of job.batch_id job.document_id overlay) s.objects r.overlay_url
                  k)
              s.world.db.predictions h.shown;
        uploaded = Shown-own job.batch_id job.document_id overlay s.objects;
      })

  After-same :
      {A : Type 0} (P : Station C.Store → Type 0) (x : Result A × Station C.Store)
      → P x.1
      → After P (λ _. P) x
  After-same P (ok a, s) h = h
  After-same P (err e, s) h = h

  -- The session commits the record, or leaves the tables as they were.
  db-record_in_session :
      (p : PredictionOut) (w : World C.Store)
      → ((record_in_session C J predict_topk render_overlay model_version uuids stamp p w).1.db
          ≡ w.db)
        ⊎ ((record_in_session C J predict_topk render_overlay model_version uuids stamp p w).1.db
            ≡ (record_prediction_db stamp p p.document_id w.db).1)
  unfolding record_in_session in_session Service.record_prediction cache_clear
  db-record_in_session p w =
      elim (Result-cases (record_prediction_db stamp p p.document_id w.db).0) [
        | inr (e, k) ↦ inl (ground arith)
        | inl (saved, k) ↦ inr (ground arith)
      ]

  reschedule :
      (s : Station C.Store) (f : List Fault)
      → HasOverlays s
      → HasOverlays (record s { schedule = f })
  reschedule s f h = record { shown = h.shown }

  reschedule-Uploaded :
      (s : Station C.Store) (f : List Fault)
      → IsUploaded job.batch_id job.document_id s
      → IsUploaded job.batch_id job.document_id (record s { schedule = f })
  reschedule-Uploaded s f h = record { shown = h.shown; uploaded = h.uploaded }

  Uploaded-HasOverlays :
      (s : Station C.Store) → IsUploaded job.batch_id job.document_id s → HasOverlays s
  Uploaded-HasOverlays s h = record { shown = h.shown }

  module _ (p : PredictionOut)
      (url : p.overlay_url ≡ some (overlay_key job.batch_id job.document_id)) where
    record-Uploaded :
        (s : Station C.Store)
        → IsUploaded job.batch_id job.document_id s
        → IsUploaded job.batch_id job.document_id
            (on_world
              (record_in_session C J predict_topk render_overlay model_version uuids stamp p)
              s).1
    unfolding on_world
    record-Uploaded s h = elim (db-record_in_session p s.world) [
      | inl same ↦ record { shown = rw same h.shown; uploaded = h.uploaded }
      | inr same ↦ record {
        shown = rw same (
            record-Overlays (Shown s.objects) p (rw url h.uploaded) stamp p.document_id s.world.db
              h.shown);
        uploaded = h.uploaded;
      }
    ]

    remote-Uploaded :
        (s : Station C.Store)
        → IsUploaded job.batch_id job.document_id s
        → After HasOverlays Kept (
            remote
              (on_world
                (record_in_session C J predict_topk render_overlay model_version uuids stamp p))
              s)
    remote-Uploaded s h =
        After-weaken (IsUploaded job.batch_id job.document_id) HasOverlays
          (λ (_ : PredictionOut). IsUploaded job.batch_id job.document_id) Kept Uploaded-HasOverlays
          (λ _ t k. Uploaded-HasOverlays t k) _
          (remote-After (IsUploaded job.batch_id job.document_id)
            (λ (_ : PredictionOut). IsUploaded job.batch_id job.document_id) reschedule-Uploaded
            (λ _ _ k. k)
            (on_world
              (record_in_session C J predict_topk render_overlay model_version uuids stamp p))
            (λ t k.
              After-same (IsUploaded job.batch_id job.document_id)
                (on_world
                  (record_in_session C J predict_topk render_overlay model_version uuids stamp p) t)
                (record-Uploaded t k))
            s h)

  store-HasOverlays :
      (overlay : Bytes) (label : PredictionLabel) (top1 : ℕ) (top5 : List (PredictionLabel × ℕ))
      (latency : ℕ) (s : Station C.Store)
      → HasOverlays s
      → After HasOverlays Kept (
          store_result C J predict_topk render_overlay model_version uuids stamp job overlay label
            top1 top5 latency s)
  unfolding store_result draw prediction_record
  store-HasOverlays overlay label top1 top5 latency s h =
      bind-After HasOverlays Uploaded Kept
        (remote (on_objects (put (overlay_key job.batch_id job.document_id) overlay))) _
        (λ _ t k.
          bind-After HasOverlays Kept Kept
            (remote (
              on_world (
                record_in_session C J predict_topk render_overlay model_version uuids stamp (
                  prediction_record C J predict_topk render_overlay model_version uuids stamp job
                    (uuids t.drawn) label top1 top5 latency))))
            (λ _ u. (ok tt, u)) (λ _ u l. l) (record t { drawn = t.drawn + 1 })
            (remote-Uploaded
              (prediction_record C J predict_topk render_overlay model_version uuids stamp job
                (uuids t.drawn) label top1 top5 latency)
              refl (record t { drawn = t.drawn + 1 })
              (record { shown = k.shown; uploaded = k.uploaded })))
        s
        (remote-After HasOverlays Uploaded reschedule (λ _ t k. Uploaded-HasOverlays t k)
          (on_objects (put (overlay_key job.batch_id job.document_id) overlay))
          (put-Uploaded overlay) s h)

  lifted :
      {A : Type 0} (r : Result A) (s : Station C.Store)
      → HasOverlays s
      → After HasOverlays Kept (lift r s)
  lifted r s h = After-same HasOverlays (lift r s) h

  classify-HasOverlays :
      (image : Bytes) (s : Station C.Store)
      → HasOverlays s
      → After HasOverlays Kept
          (classify C J predict_topk render_overlay model_version uuids stamp job image s)
  unfolding classify
  classify-HasOverlays image s h =
      bind-After HasOverlays Kept Kept (lift (predict_topk image 5)) _
        (λ predicted s₁ h₁.
          bind-After HasOverlays Kept Kept (lift (first_of predicted.0)) _
            (λ top1 s₂ h₂.
              bind-After HasOverlays Kept Kept (lift (label_to_enum top1.0)) _
                (λ label s₃ h₃.
                  bind-After HasOverlays Kept Kept (lift (convert_top5 predicted.0)) _
                    (λ top5 s₄ h₄.
                      bind-After HasOverlays Kept Kept (lift (render_overlay image top1.0 top1.1)) _
                        (λ overlay s₅ h₅.
                          store-HasOverlays overlay label top1.1 top5 predicted.1 s₅ h₅)
                        s₄ (lifted (render_overlay image top1.0 top1.1) s₄ h₄))
                    s₃ (lifted (convert_top5 predicted.0) s₃ h₃))
                s₂ (lifted (label_to_enum top1.0) s₂ h₂))
            s₁ (lifted (first_of predicted.0) s₁ h₁))
        s (lifted (predict_topk image 5) s h)

  get-HasOverlays :
      (s : Station C.Store)
      → HasOverlays s
      → After HasOverlays Kept (on_objects (get job.blob_key) s)
  unfolding on_objects get
  get-HasOverlays s h =
      After-same HasOverlays (on_objects (get job.blob_key) s) (record { shown = h.shown })

  attempt-HasOverlays :
      (s : Station C.Store)
      → HasOverlays s
      → After HasOverlays Kept
          (attempt_job C J predict_topk render_overlay model_version uuids stamp job s)
  unfolding attempt_job
  attempt-HasOverlays s h =
      bind-After HasOverlays Kept Kept (remote (on_objects (get job.blob_key)))
        (λ image. classify C J predict_topk render_overlay model_version uuids stamp job image)
        (λ image t k. classify-HasOverlays image t k) s
        (remote-After HasOverlays Kept reschedule (λ _ _ k. k) (on_objects (get job.blob_key))
          get-HasOverlays s h)

  -- Where every prediction's overlay is in the storage, it is so after a job of the worker, whether it
  -- returns or raises, however often it is retried, whatever the predictor and the drawing give, and
  -- whichever calls of the storage and the database fail, before or after their work was done.
  pub classify_job-HasOverlays :
      (s : Station C.Store)
      → HasOverlays s
      → HasOverlays (classify_job C J predict_topk render_overlay model_version uuids stamp job s).1
  unfolding classify_job
  classify_job-HasOverlays s h =
      After-work HasOverlays Kept reschedule (λ _ _ k. k)
        (attempt_job C J predict_topk render_overlay model_version uuids stamp job)
        attempt-HasOverlays
        (classify_job C J predict_topk render_overlay model_version uuids stamp job s)
        (retry-After transient
          (attempt_job C J predict_topk render_overlay model_version uuids stamp job) HasOverlays
          Kept attempt-HasOverlays 2 s h)
