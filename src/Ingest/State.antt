-- ===== src/Ingest/State.antt =====
-- What the ingest worker reaches: the SFTP server, the blob storage, the database and the queue. The
-- servers are not under the worker's control: a schedule says which call fails, and when.
use document_classifier.Prelude.{
  member, Bool, Option, none, some, List, [], ◌∷◌, String, str_eq, if◌then◌else◌,
}
use document_classifier.Exec.{Error, ok, err, Exec, os_error, other_error, ◌>>=◌, ◌>>◌}
use document_classifier.Contracts.{ClassifyJob}
use document_classifier.Db.{Db}
use document_classifier.Ingest.Validation.{Bytes}

-- A call works, or raises before it did anything, or raises though its work was done, as when the
-- answer of the server is lost.
pub data Fault : Type 0 where
  works : Fault
  fails_before fails_after : Error → Fault

pub record Servers : Type 0 where
  -- The files below `incoming`, in the order in which they are listed.
  pub incoming : List (String × Bytes)
  -- The files that were moved to `processed` and to `quarantine`, the last one first.
  pub processed : List String
  pub quarantine : List String
  -- The names of the buckets of the storage.
  pub buckets : List String
  -- The objects of the bucket `documents`, the last written first.
  pub blobs : List (String × Bytes)
  pub db : Db
  -- The jobs that were put into the queue, the last one first.
  pub queue : List ClassifyJob
  -- What becomes of the next calls; the calls behind its end work.
  pub schedule : List Fault

abbrev pub find_file {ℓ} : {A : Type ℓ} → String → List (String × A) → Option A
find_file path [] = none
find_file path ((p, a) ∷ files) = if str_eq p path then some a else find_file path files

abbrev pub remove_file {ℓ} : {A : Type ℓ} → String → List (String × A) → List (String × A)
remove_file path [] = []
remove_file path ((p, a) ∷ files) =
    let rest = remove_file path files in if str_eq p path then rest else (p, a) ∷ rest

module _ {A : Type 0} where
  -- The call `work` under the first fault of the schedule.
  unfoldable pub under : List Fault → Exec Servers A → Exec Servers A
  under [] work s = work s
  under (works ∷ faults) work s = work (record s { schedule = faults })
  under (fails_before e ∷ faults) work s = (err e, record s { schedule = faults })
  under (fails_after e ∷ faults) work s = (err e, (work (record s { schedule = faults })).1)

  unfoldable pub call : Exec Servers A → Exec Servers A
  call work s = under s.schedule work s

-- `SFTPClient.fetch`
unfoldable pub fetch : String → Exec Servers Bytes
fetch path s = elim (find_file path s.incoming) [
  | none ↦ (err os_error, s)
  | some bytes ↦ (ok bytes, s)
]

-- `SFTPClient.move_to_processed` and `move_to_quarantine`: a file that is not there is an error.
unfoldable pub move_to_processed : String → Exec Servers (Unit {0})
move_to_processed path s = elim (find_file path s.incoming) [
  | none ↦ (err os_error, s)
  | some bytes ↦
      (ok tt, record s { incoming = remove_file path s.incoming; processed = path ∷ s.processed })
]

unfoldable pub move_to_quarantine : String → Exec Servers (Unit {0})
move_to_quarantine path s = elim (find_file path s.incoming) [
  | none ↦ (err os_error, s)
  | some bytes ↦
      (ok tt, record s { incoming = remove_file path s.incoming; quarantine = path ∷ s.quarantine })
]

-- `bucket_exists` and `make_bucket` of the client
unfoldable pub bucket_exists : String → Exec Servers Bool
bucket_exists name s = (ok (member name s.buckets), s)

unfoldable pub make_bucket : String → Exec Servers (Unit {0})
make_bucket name s =
    if member name s.buckets
    then (err other_error, s)
    else (ok tt, record s { buckets = name ∷ s.buckets })

-- `MinioBlob.ensure_buckets`: two buckets, each with one request or two.
unfoldable pub ensure_bucket : String → Exec Servers (Unit {0})
ensure_bucket name = do
  there ← call (bucket_exists name)
  λ s. if there then (ok tt, s) else call (make_bucket name) s

unfoldable pub ensure_buckets : Exec Servers (Unit {0})
ensure_buckets = do ensure_bucket "documents"; ensure_bucket "overlays"

-- `MinioBlob.put` into the bucket `documents`, which the start of the loop has made
unfoldable pub put_blob : String → Bytes → Exec Servers (Unit {0})
put_blob key bytes s = (ok tt, record s { blobs = (key, bytes) ∷ s.blobs })

-- `RQQueue.enqueue`
unfoldable pub enqueue : ClassifyJob → Exec Servers (Unit {0})
enqueue job s = (ok tt, record s { queue = job ∷ s.queue })
