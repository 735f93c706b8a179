-- ===== src/Ingest/Poll.antt =====
-- The ingest worker under every schedule of failures: a file, a listing, the rounds of the loop.
use document_classifier.Prelude.{ℕ, zero, suc, ◌+◌, ◌≡◌, refl, List, [], ◌∷◌, String, inl, inr}
use document_classifier.Exec.{Result, ok, err, file_validation, os_error, other_error}
use document_classifier.Exec.Hoare.{After, bind-After, After-weaken}
use document_classifier.Prelude.{
  Option-cases, arith, member, Bool, true, false, Bool-cases, if◌then◌else◌,
}
use document_classifier.Ingest.Validation.{
  Bytes, IngestedDocument, Opened, parse_remote_path, validate_tiff,
}
use document_classifier.Ingest.State.{
  Servers, find_file, remove_file, bucket_exists, make_bucket, ensure_bucket, ensure_buckets, call,
  fetch, move_to_quarantine,
}
use document_classifier.Ingest.Processor.{
  store_document, dispatch, process_remote_file, process_all, poll_once, poll_rounds, run_forever,
  list_incoming,
}
use document_classifier.Ingest.Invariant.{IsServed, reschedule-IsServed, call-After}
use document_classifier.Ingest.Served.{
  Enqueued, Enqueued-IsServed, store-IsServed, validate_tiff-named,
}

abbrev Kept {ℓ} : {A : Type ℓ} → A → Servers → Type 0
Kept a s = IsServed s

quarantine-IsServed :
    (path : String) (s : Servers) → IsServed s → After IsServed Kept (move_to_quarantine path s)
unfolding move_to_quarantine
quarantine-IsServed path s h = elim (Option-cases (find_file path s.incoming)) [
  | inl missing ↦
      let raised : move_to_quarantine path s ≡ (err os_error, s) = ground arith in rw raised h
  | inr (bytes, found) ↦
      let returned : move_to_quarantine path s ≡ (
        ok tt,
        record s { incoming = remove_file path s.incoming; quarantine = path ∷ s.quarantine },
      ) =
        ground arith in
      rw returned (record { jobs = h.jobs; moved = h.moved; counted = h.counted })
]

fetch-IsServed : (path : String) (s : Servers) → IsServed s → After IsServed Kept (fetch path s)
unfolding fetch
fetch-IsServed path s h = elim (Option-cases (find_file path s.incoming)) [
  | inl missing ↦ let raised : fetch path s ≡ (err os_error, s) = ground arith in rw raised h
  | inr (bytes, found) ↦ let returned : fetch path s ≡ (ok bytes, s) = ground arith in rw returned h
]

make_bucket-IsServed :
    (name : String) (s : Servers) → IsServed s → After IsServed Kept (make_bucket name s)
unfolding make_bucket
make_bucket-IsServed name s h = elim (Bool-cases (member name s.buckets)) [
  | inl there ↦ let raised : make_bucket name s ≡ (err other_error, s) = ground arith in rw raised h
  | inr missing ↦
      let returned : make_bucket name s ≡ (ok tt, record s { buckets = name ∷ s.buckets }) =
        ground arith in
      rw returned (record { jobs = h.jobs; moved = h.moved; counted = h.counted })
]

made-IsServed :
    (name : String) (there : Bool) (s : Servers)
    → IsServed s
    → After IsServed Kept (if there then (ok tt, s) else call (make_bucket name) s)
made-IsServed name true s h = h
made-IsServed name false s h =
    call-After IsServed Kept (λ t f k. reschedule-IsServed t f k) (λ _ _ k. k) (make_bucket name)
      (make_bucket-IsServed name) s h

bucket-IsServed :
    (name : String) (s : Servers) → IsServed s → After IsServed Kept (ensure_bucket name s)
unfolding ensure_bucket bucket_exists
bucket-IsServed name s h =
    bind-After IsServed Kept Kept (call (bucket_exists name)) _
      (λ there t k. made-IsServed name there t k) s
      (call-After IsServed Kept (λ t f k. reschedule-IsServed t f k) (λ _ _ k. k)
        (bucket_exists name) (λ t k. k) s h)

buckets-IsServed : (s : Servers) → IsServed s → After IsServed Kept (ensure_buckets s)
unfolding ensure_buckets
buckets-IsServed s h =
    bind-After IsServed Kept Kept (ensure_bucket "documents") _
      (λ _ t k. bucket-IsServed "overlays" t k) s (bucket-IsServed "documents" s h)

After-any : {A : Type 0} (x : Result A × Servers) → After IsServed Kept x → IsServed x.1
After-any (ok a, s) h = h
After-any (err e, s) h = h

module _ (open_image : Bytes → Opened) (now : ℕ) (max_bytes : ℕ) (request_id path : String) where
  dispatch-IsServed :
      (r : Result IngestedDocument)
      → ((doc : IngestedDocument)
          → r ≡ ok doc
          → parse_remote_path path ≡ ok (doc.batch_id, doc.document_id))
      → (s : Servers) → IsServed s
      → After IsServed Kept (dispatch now path request_id r s)
  unfolding dispatch
  dispatch-IsServed (ok doc) named s h =
      After-weaken IsServed IsServed (λ _. Enqueued now path request_id doc) Kept (λ _ k. k)
        (λ _ t k. Enqueued-IsServed now path request_id doc t k)
        (store_document now path request_id doc s)
        (store-IsServed now path request_id doc (named doc refl) s h)
  dispatch-IsServed (err file_validation) named s h =
      call-After IsServed Kept (λ t f k. reschedule-IsServed t f k) (λ _ _ k. k)
        (move_to_quarantine path) (quarantine-IsServed path) s h
  dispatch-IsServed (err e) named s h = h

  file-IsServed :
      (s : Servers)
      → IsServed s
      → After IsServed Kept (process_remote_file open_image now max_bytes request_id path s)
  unfolding process_remote_file
  file-IsServed s h =
      bind-After IsServed Kept Kept (call (fetch path)) _
        (λ bytes t k.
          dispatch-IsServed (validate_tiff open_image path bytes max_bytes)
            (validate_tiff-named open_image path bytes max_bytes) t k)
        s
        (call-After IsServed Kept (λ t f k. reschedule-IsServed t f k) (λ _ _ k. k) (fetch path)
          (fetch-IsServed path) s h)

module _ (open_image : Bytes → Opened) (now : ℕ) (max_bytes : ℕ) where
  files-IsServed :
      (request_ids : ℕ → String) (i : ℕ) (paths : List String) (s : Servers)
      → IsServed s
      → IsServed (process_all open_image now max_bytes request_ids i paths s)
  unfolding process_all
  files-IsServed request_ids i [] s h = h
  files-IsServed request_ids i (path ∷ paths) s h =
      files-IsServed request_ids (i + 1) paths
        (process_remote_file open_image now max_bytes (request_ids i) path s).1
        (After-any (process_remote_file open_image now max_bytes (request_ids i) path s)
          (file-IsServed open_image now max_bytes (request_ids i) path s h))

  poll-IsServed :
      (request_ids : ℕ → String) (s : Servers)
      → IsServed s
      → After IsServed Kept (poll_once open_image now max_bytes request_ids s)
  unfolding poll_once list_incoming
  poll-IsServed request_ids s h =
      bind-After IsServed Kept Kept (call (list_incoming open_image now max_bytes))
        (λ paths t. (ok tt, process_all open_image now max_bytes request_ids 0 paths t))
        (λ paths t k. files-IsServed request_ids 0 paths t k) s
        (call-After IsServed Kept (λ t f k. reschedule-IsServed t f k) (λ _ _ k. k)
          (list_incoming open_image now max_bytes) (λ t k. k) s h)

  rounds-After :
      (request_ids : ℕ → ℕ → String) (rounds : ℕ) (s : Servers)
      → IsServed s
      → After IsServed Kept (poll_rounds open_image now max_bytes request_ids rounds s)
  unfolding poll_rounds
  rounds-After request_ids zero s h = h
  rounds-After request_ids (suc rounds) s h =
      bind-After IsServed Kept Kept (poll_once open_image now max_bytes (request_ids rounds)) _
        (λ _ t k. rounds-After request_ids rounds t k) s (poll-IsServed (request_ids rounds) s h)

  start-After :
      (request_ids : ℕ → ℕ → String) (rounds : ℕ) (s : Servers)
      → IsServed s
      → After IsServed Kept (run_forever open_image now max_bytes request_ids rounds s)
  unfolding run_forever
  start-After request_ids rounds s h =
      bind-After IsServed Kept Kept ensure_buckets _ (λ _ t k. rounds-After request_ids rounds t k)
        s (buckets-IsServed s h)

  -- Let the servers be in order: every job of the queue has its blob in the storage and its row in the
  -- database, every file of `processed` has a job in the queue for the batch and the document its path
  -- names, and every batch counts its documents. Then they are in order after the start and any number of rounds of
  -- the ingest worker, whatever files arrived, and whichever calls of the SFTP server, the storage, the
  -- database and the queue fail, before or after their work was done.
  pub run_forever-IsServed :
      (request_ids : ℕ → ℕ → String) (rounds : ℕ) (s : Servers)
      → IsServed s
      → IsServed (run_forever open_image now max_bytes request_ids rounds s).1
  run_forever-IsServed request_ids rounds s h =
      After-any (run_forever open_image now max_bytes request_ids rounds s)
        (start-After request_ids rounds s h)
