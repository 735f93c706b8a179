-- ===== src/Ingest/Served.antt =====
-- Every step of the ingest worker keeps the servers in order, under every schedule of failures.
use text.Mathlib.TextPositions.{eq_refl}
use document_classifier.Prelude.{
  All-map, ℕ, ◌≡◌, true, ◌∷◌, String, inl, inr, arith, is_some, Option-cases,
}
use document_classifier.Exec.{ok, err, Result-cases, os_error}
use document_classifier.Exec.Hoare.{After, bind-After, After-weaken}
use document_classifier.Exec.Retry.{retry-After}
use document_classifier.Uuid.{Uuid, parse_uuid}
use document_classifier.Db.{Db, document_with, find?}
use document_classifier.Repositories.Documents.{ensure_for_ingest}
use document_classifier.Repositories.Documents.Rows.{ensure_for_ingest-Keeps}
use document_classifier.Repositories.Documents.Counted.{IsCounted}
use document_classifier.Repositories.Documents.Counts.{ensure_for_ingest-IsCounted}
use document_classifier.Ingest.Validation.{
  Bytes, IngestedDocument, Opened, parse_remote_path, validate_tiff,
}
use document_classifier.Ingest.State.{
  Servers, find_file, remove_file, call, move_to_processed, put_blob, enqueue,
}
use document_classifier.Ingest.Processor.{
  any_error, upload_with_retry, commit_row, ensure_document_row, job_of, enqueue_with_retry,
  store_document,
}
use document_classifier.Ingest.Invariant.{
  HasBlob, HasRow, queued, IsServed, reschedule-IsServed, Scheduleless, call-After,
}

module _ (now : ℕ) (path request_id : String) (doc : IngestedDocument) where
  Stored : Servers → Type 0
  Stored s = IsServed s × HasBlob doc.blob_key s

  Known : Servers → Type 0
  Known s = IsServed s × HasBlob doc.blob_key s × HasRow doc.document_id s

  -- `Known`, and the job is in the queue.
  pub Enqueued : Servers → Type 0
  Enqueued s =
      IsServed s
      × HasBlob doc.blob_key s
      × HasRow doc.document_id s
      × (queued doc.batch_id doc.document_id s.queue ≡ true)

  put_blob-Stored :
      (s : Servers)
      → IsServed s
      → After IsServed (λ _. Stored) (put_blob doc.blob_key doc.data_bytes s)
  unfolding put_blob Stored
  put_blob-Stored s h = (
    record {
      jobs = All-map (λ job r. (ground (arith, r.0), r.1)) s.queue h.jobs;
      moved = h.moved;
      counted = h.counted;
    },
    ground (arith, eq_refl doc.blob_key),
  )

  upload-Stored :
      (s : Servers) → IsServed s → After IsServed (λ _. Stored) (upload_with_retry doc s)
  unfolding upload_with_retry Stored
  upload-Stored s h =
      retry-After any_error (call (put_blob doc.blob_key doc.data_bytes)) IsServed (λ _. Stored)
        (call-After IsServed (λ _. Stored) (λ t f k. reschedule-IsServed t f k) (λ _ t k. k.0)
          (put_blob doc.blob_key doc.data_bytes) put_blob-Stored)
        2 s h

  -- The commit of a session that returned.
  committed :
      (s : Servers) (db' : Db) (v : Uuid)
      → Stored s
      → IsCounted db'
      → parse_uuid doc.document_id ≡ ok v
      → is_some (find? (document_with v) db'.documents) ≡ true
      → ((x : Uuid)
          → is_some (find? (document_with x) s.db.documents) ≡ true
          → is_some (find? (document_with x) db'.documents) ≡ true)
      → Known (record s { db = db' })
  unfolding Stored Known
  committed s db' v h c p made kept = (
    record {
      jobs = All-map (λ job r. (r.0, (r.1.0, r.1.1, kept r.1.0 r.1.2))) s.queue h.0.jobs;
      moved = h.0.moved;
      counted = c;
    },
    h.1,
    (v, p, made),
  )

  commit_row-Known : (s : Servers) → Stored s → After Stored (λ _. Known) (commit_row now doc s)
  unfolding commit_row Stored
  commit_row-Known s h =
      elim (Result-cases (ensure_for_ingest now doc.batch_id doc.document_id doc.blob_key s.db).0) [
        | inr (x, e) ↦ let raised : commit_row now doc s ≡ (err x, s) = ground arith in rw raised h
        | inl (row, e) ↦
            let db' = (ensure_for_ingest now doc.batch_id doc.document_id doc.blob_key s.db).1 in
            let (v, p, kept) =
              ensure_for_ingest-Keeps now doc.batch_id doc.document_id doc.blob_key s.db db'
                {out = row} (ground arith) in
            let c =
              ensure_for_ingest-IsCounted now doc.batch_id doc.document_id doc.blob_key s.db db'
                {d = row} h.0.counted (ground arith) in
            let returned : commit_row now doc s ≡ (ok tt, record s { db = db' }) = ground arith in
            rw returned (committed s db' v h c p kept.0 kept.1)
      ]

  ensure_row-Known :
      (s : Servers) → Stored s → After Stored (λ _. Known) (ensure_document_row now doc s)
  unfolding ensure_document_row Stored Known
  ensure_row-Known s h =
      retry-After any_error (call (commit_row now doc)) Stored (λ _. Known)
        (call-After Stored (λ _. Known) (λ t f k. (reschedule-IsServed t f k.0, k.1))
          (λ _ t k. (k.0, k.1)) (commit_row now doc) commit_row-Known)
        2 s h

  enqueue-Enqueued :
      (s : Servers) → Known s → After Known (λ _. Enqueued) (enqueue (job_of doc request_id) s)
  unfolding enqueue job_of Known Enqueued
  enqueue-Enqueued s h = (
    record {
      jobs = ((h.1, h.2), h.0.jobs);
      moved = All-map (λ p r. (r.0, r.1, ground (arith, r.2))) s.processed h.0.moved;
      counted = h.0.counted;
    },
    h.1,
    h.2,
    ground (arith, eq_refl doc.batch_id, eq_refl doc.document_id),
  )

  enqueue_retry-Enqueued :
      (s : Servers) → Known s → After Known (λ _. Enqueued) (enqueue_with_retry doc request_id s)
  unfolding enqueue_with_retry Known Enqueued
  enqueue_retry-Enqueued s h =
      retry-After any_error (call (enqueue (job_of doc request_id))) Known (λ _. Enqueued)
        (call-After Known (λ _. Enqueued) (λ t f k. (reschedule-IsServed t f k.0, k.1, k.2))
          (λ _ t k. (k.0, k.1, k.2)) (enqueue (job_of doc request_id)) enqueue-Enqueued)
        2 s h

  Stored-IsServed : (s : Servers) → Stored s → IsServed s
  unfolding Stored
  Stored-IsServed s h = h.0

  Known-IsServed : (s : Servers) → Known s → IsServed s
  unfolding Known
  Known-IsServed s h = h.0

  pub Enqueued-IsServed : (s : Servers) → Enqueued s → IsServed s
  unfolding Enqueued
  Enqueued-IsServed s h = h.0

  reschedule-Enqueued : Scheduleless Enqueued
  unfolding Enqueued
  reschedule-Enqueued s f h = (reschedule-IsServed s f h.0, h.1, h.2, h.3)

  module _ (named : parse_remote_path path ≡ ok (doc.batch_id, doc.document_id)) where
    move-Enqueued :
        (s : Servers) → Enqueued s → After Enqueued (λ _. Enqueued) (move_to_processed path s)
    unfolding move_to_processed Enqueued
    move-Enqueued s h = elim (Option-cases (find_file path s.incoming)) [
      | inl missing ↦
          let raised : move_to_processed path s ≡ (err os_error, s) = ground arith in rw raised h
      | inr (bytes, found) ↦
          let returned : move_to_processed path s ≡ (
            ok tt,
            record s { incoming = remove_file path s.incoming; processed = path ∷ s.processed },
          ) =
            ground arith in
          rw returned (
            record {
              jobs = h.0.jobs;
              moved = (((doc.batch_id, doc.document_id), named, h.3), h.0.moved);
              counted = h.0.counted;
            },
            h.1,
            h.2,
            h.3,
          )
    ]

    -- A document is stored whole, or the servers stay in order.
    pub store-IsServed :
        (s : Servers)
        → IsServed s
        → After IsServed (λ _. Enqueued) (store_document now path request_id doc s)
    unfolding store_document
    store-IsServed s h =
        bind-After IsServed (λ _. Stored) (λ _. Enqueued) (upload_with_retry doc) _
          (λ _ s₁ h₁.
            bind-After IsServed (λ _. Known) (λ _. Enqueued) (ensure_document_row now doc) _
              (λ _ s₂ h₂.
                bind-After IsServed (λ _. Enqueued) (λ _. Enqueued)
                  (enqueue_with_retry doc request_id) _
                  (λ _ s₃ h₃.
                    After-weaken Enqueued IsServed (λ _. Enqueued) (λ _. Enqueued) Enqueued-IsServed
                      (λ _ _ k. k) (call (move_to_processed path) s₃)
                      (call-After Enqueued (λ _. Enqueued) (λ t f k. reschedule-Enqueued t f k)
                        (λ _ t k. k) (move_to_processed path) move-Enqueued s₃ h₃))
                  s₂
                  (After-weaken Known IsServed (λ _. Enqueued) (λ _. Enqueued) Known-IsServed
                    (λ _ _ k. k) (enqueue_with_retry doc request_id s₂)
                    (enqueue_retry-Enqueued s₂ h₂)))
              s₁
              (After-weaken Stored IsServed (λ _. Known) (λ _. Known) Stored-IsServed (λ _ _ k. k)
                (ensure_document_row now doc s₁) (ensure_row-Known s₁ h₁)))
          s (upload-Stored s h)

-- A file that was found to be a document has the texts of its path.
pub validate_tiff-named :
    (open_image : Bytes → Opened) (path : String) (bytes : Bytes) (max_bytes : ℕ)
    (doc : IngestedDocument)
    → validate_tiff open_image path bytes max_bytes ≡ ok doc
    → parse_remote_path path ≡ ok (doc.batch_id, doc.document_id)
unfolding validate_tiff
validate_tiff-named open_image path bytes max_bytes doc e =
    elim (Result-cases (parse_remote_path path)) [
      | inr (x, k) ↦ absurd (ground arith)
      | inl ((b, d), k) ↦ ground arith
    ]
