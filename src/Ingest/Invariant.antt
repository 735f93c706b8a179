-- ===== src/Ingest/Invariant.antt =====
-- What the ingest worker keeps true of the servers, however their calls fail: a job in the queue has its
-- document and its blob, a file that was moved to `processed` has its job, and the batches count their
-- documents.
use document_classifier.Prelude.{
  ◌≡◌, Bool, All, true, false, ◌&&◌, ◌||◌, List, [], ◌∷◌, String, str_eq, is_some,
}
use document_classifier.Exec.{Result, ok, err, Exec}
use document_classifier.Exec.Hoare.{After}
use document_classifier.Uuid.{Uuid, parse_uuid}
use document_classifier.Contracts.{ClassifyJob}
use document_classifier.Db.{document_with, find?}
use document_classifier.Repositories.Documents.Counted.{IsCounted}
use document_classifier.Ingest.Validation.{parse_remote_path}
use document_classifier.Ingest.State.{
  Servers, Fault, works, fails_before, fails_after, find_file, under, call,
}

abbrev pub HasBlob : String → Servers → Type 0
HasBlob key s = is_some (find_file key s.blobs) ≡ true

abbrev pub HasRow : String → Servers → Type 0
HasRow document_id s =
    (v : Uuid) × (parse_uuid document_id ≡ ok v)
    × (is_some (find? (document_with v) s.db.documents) ≡ true)

abbrev pub JobReady : Servers → ClassifyJob → Type 0
JobReady s job = HasBlob job.blob_key s × HasRow job.document_id s

-- A job for a document of a batch is in the queue.
abbrev pub queued : String → String → List ClassifyJob → Bool
queued batch document [] = false
queued batch document (job ∷ jobs) =
    (str_eq job.batch_id batch && str_eq job.document_id document) || queued batch document jobs

abbrev pub HasJob : Servers → String → Type 0
HasJob s path =
    (ids : String × String) × (parse_remote_path path ≡ ok ids)
    × (queued ids.0 ids.1 s.queue ≡ true)

pub record IsServed (s : Servers) : Type 0 where
  pub jobs : All (JobReady s) s.queue
  pub moved : All (HasJob s) s.processed
  pub counted : IsCounted s.db

-- The schedule is no part of it.
pub reschedule-IsServed :
    (s : Servers) (f : List Fault) → IsServed s → IsServed (record s { schedule = f })
reschedule-IsServed s f h = record { jobs = h.jobs; moved = h.moved; counted = h.counted }

-- A predicate of the servers that does not read the schedule.
abbrev pub Scheduleless : (Servers → Type 0) → Type 0
Scheduleless P = (s : Servers) (f : List Fault) → P s → P (record s { schedule = f })

module _ {A : Type 0} (P : Servers → Type 0) (Q : A → Servers → Type 0) (free : Scheduleless P)
    (weak : (a : A) (s : Servers) → Q a s → P s) (work : Exec Servers A)
    (works_so : (s : Servers) → P s → After P Q (work s)) where
  After-work : (x : Result A × Servers) → After P Q x → P x.1
  After-work (ok a, s) h = weak a s h
  After-work (err e, s) h = h

  under-After : (faults : List Fault) (s : Servers) → P s → After P Q (under faults work s)
  unfolding under
  under-After [] s h = works_so s h
  under-After (works ∷ f) s h = works_so (record s { schedule = f }) (free s f h)
  under-After (fails_before e ∷ f) s h = free s f h
  under-After (fails_after e ∷ f) s h =
      After-work (work (record s { schedule = f }))
        (works_so (record s { schedule = f }) (free s f h))

  -- A call under the schedule reaches what the call reaches, or keeps what was there.
  pub call-After : (s : Servers) → P s → After P Q (call work s)
  unfolding call
  call-After s h = under-After s.schedule s h
