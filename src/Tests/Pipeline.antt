-- ===== src/Tests/Pipeline.antt =====
-- Runs from the file of the SFTP server to the overlay of the prediction.
use document_classifier.Prelude.{ℕ, ◌≡◌, refl, String, List, [], ◌∷◌, some}
use document_classifier.Exec.{Result, ok, os_error, timeout_error}
use document_classifier.Contracts.{ClassifyJob, letter, memo}
use document_classifier.Db.{Db}
use document_classifier.Ingest.{
  Servers, Opened, image, works, fails_before, fails_after, run_forever,
}
use document_classifier.Contracts.{DocumentOut}
use document_classifier.Exec.{err, file_validation}
use document_classifier.Repositories.Documents.{ensure_for_ingest}
use document_classifier.Ingest.{IngestedDocument, validate_tiff, process_remote_file, remove_file}
use document_classifier.Ingest.Delivery.{
  delivered, process_remote_file_delivers, process_remote_file_quarantines,
}
use document_classifier.Ingest.Invariant.{IsServed}
use document_classifier.Ingest.Poll.{run_forever-IsServed}
use document_classifier.Blob.{Bytes, find_object, object_key}
use document_classifier.Contracts.{file_folder, label_value}
use document_classifier.Worker.Classes.{spaced, label_to_enum-spaced}
use document_classifier.Prelude.{member}
use document_classifier.Prelude.{true}
use document_classifier.Worker.{label_to_enum, classes, Station, classify_job}
use document_classifier.Worker.Shown.{HasOverlays}
use document_classifier.Worker.Overlays.{classify_job-HasOverlays}
use document_classifier.Api.Deps.{require_role}
use document_classifier.Api.Predictions.{get_overlay_endpoint}
use document_classifier.Api.Overlay.{get_overlay_serves}
use document_classifier.Tests.Data.{
  db, stamp, admin_out, world, memory, codecs, app, subject, header, batch_text, document_text,
  prediction_text, reviewer_text,
}
use document_classifier.Contracts.{PredictionOut}
use document_classifier.Db.{Prediction}
use document_classifier.Services.World.{World}
use document_classifier.Blob.{put, overlay_key}
use document_classifier.Repositories.Predictions as Repo
use document_classifier.Tests.Data.{prediction_row}
use document_classifier.Tests.Predictions.{db-IsCounted, memo_out}

-- Every file is an image. Three calls make the bucket of the overlays; then the first upload is lost, and
-- the second database call fails.
abbrev tiff : Bytes → Opened
tiff bytes = image "TIFF"

abbrev servers : Servers
servers = record {
  incoming =
      (
        "incoming/00000000-0000-0000-0000-000000000003/00000000-0000-0000-0000-000000000009.tif",
        7 ∷ [],
      )
      ∷ ("incoming/notes.txt", 8 ∷ [])
      ∷ [];
  processed = [];
  quarantine = [];
  buckets = "documents" ∷ [];
  blobs = [];
  db = db;
  queue = [];
  schedule =
      works
      ∷ works
      ∷ works
      ∷ works
      ∷ works
      ∷ fails_before os_error
      ∷ works
      ∷ fails_after timeout_error
      ∷ fails_before os_error
      ∷ [];
}

servers-IsServed : IsServed servers
servers-IsServed = record { jobs = tt; moved = tt; counted = db-IsCounted }

run_forever-IsServed_example : IsServed (run_forever tiff 9 100 (λ round i. "request") 3 servers).1
run_forever-IsServed_example =
    run_forever-IsServed tiff 9 100 (λ round i. "request") 3 servers servers-IsServed

abbrev station : Station (List (String × String))
station = record {
  objects =
      record { bucket = "overlays"; key = "b/d.png"; content = 1 ∷ [] }
      ∷ record { bucket = "documents"; key = "documents/b/d.tif"; content = 7 ∷ [] }
      ∷ [];
  world = world;
  drawn = 0;
  schedule = works ∷ fails_after timeout_error ∷ [];
}

station-HasOverlays : HasOverlays station
unfolding find_object object_key
station-HasOverlays = record { shown = (refl, tt) }

abbrev job : ClassifyJob
job = record {
  batch_id = batch_text;
  document_id = document_text;
  blob_key = "documents/b/d.tif";
  request_id = "request";
}

abbrev predict : Bytes → ℕ → Result (List (String × ℕ) × ℕ)
predict bytes k = ok (("memo", 8_000_000_000) ∷ ("file folder", 1_000_000_000) ∷ [], 12)

abbrev draw_overlay : Bytes → String → ℕ → Result Bytes
draw_overlay bytes label confidence = ok (2 ∷ [])

classify_job-HasOverlays_example :
    HasOverlays
      (classify_job memory codecs predict draw_overlay "v1"
        (λ n. reviewer_text)
        stamp
        job
        station).1
classify_job-HasOverlays_example =
    classify_job-HasOverlays memory codecs predict draw_overlay "v1" (λ n. reviewer_text) stamp job
      station station-HasOverlays

-- The prediction whose overlay has the key of the worker.
abbrev shown_row : Prediction
shown_row = record prediction_row { overlay_url = some (overlay_key batch_text document_text) }

abbrev shown_world : World (List (String × String))
shown_world = record world { db = record db { predictions = shown_row ∷ [] } }

abbrev shown_out : PredictionOut
shown_out = record memo_out { overlay_url = some (overlay_key batch_text document_text) }

shown_read : (Repo.get prediction_text shown_world.db).0 ≡ ok shown_out
unfolding Repo.get Repo.require_prediction document_classifier.Uuid.parse_uuid
    document_classifier.Db.find? document_classifier.Repositories.Mapping.prediction_to_domain
    document_classifier.Repositories.Mapping.top5_to_domain
    document_classifier.Contracts.label_of_value document_classifier.Uuid.uuid_to_str
shown_read = refl

admin_sees : (require_role app subject header ("read_batch" ∷ []) shown_world.db).0 ≡ ok admin_out
unfolding require_role document_classifier.Repositories.Users.get
    document_classifier.Repositories.Users.require_user document_classifier.Uuid.parse_uuid
    document_classifier.Db.find? document_classifier.Repositories.Mapping.user_to_domain
    document_classifier.Contracts.role_of_value document_classifier.Api.Deps.allows
    document_classifier.Api.Deps.policy document_classifier.Contracts.role_value
    document_classifier.Uuid.uuid_to_str
admin_sees = refl

get_overlay_serves_example :
    get_overlay_endpoint memory codecs app subject header
      (some (put (overlay_key batch_text document_text) (2 ∷ []) station.objects).1)
      prediction_text
      shown_world
    ≡ (ok (2 ∷ []), shown_world)
get_overlay_serves_example =
    get_overlay_serves memory codecs app subject header prediction_text batch_text document_text
      shown_world admin_out shown_out (2 ∷ []) station.objects admin_sees shown_read refl

label_to_enum-spaced_example :
    (member (spaced (label_value file_folder)) classes ≡ true)
    × (label_to_enum (spaced (label_value file_folder)) ≡ ok file_folder)
label_to_enum-spaced_example = label_to_enum-spaced file_folder

abbrev quiet_servers : Servers
quiet_servers = record servers { schedule = [] }

abbrev tiff_path : String
tiff_path = "incoming/00000000-0000-0000-0000-000000000003/00000000-0000-0000-0000-000000000009.tif"

abbrev tiff_document : IngestedDocument
tiff_document = record {
  remote_path = tiff_path;
  batch_id = batch_text;
  document_id = "00000000-0000-0000-0000-000000000009";
  blob_key =
      "documents/00000000-0000-0000-0000-000000000003/00000000-0000-0000-0000-000000000009.tif";
  data_bytes = 7 ∷ [];
}

tiff_valid : validate_tiff tiff tiff_path (7 ∷ []) 100 ≡ ok tiff_document
unfolding validate_tiff document_classifier.Uuid.parse_uuid
tiff_valid = refl

notes_refused : validate_tiff tiff "incoming/notes.txt" (8 ∷ []) 100 ≡ err file_validation
unfolding validate_tiff
notes_refused = refl

abbrev row_of : Result DocumentOut → DocumentOut
row_of (ok row) = row
row_of (err e) = record { id = ""; batch_id = ""; blob_key = ""; created_at = 0 }

abbrev committed : Result DocumentOut × Db
committed =
    ensure_for_ingest 9 tiff_document.batch_id tiff_document.document_id tiff_document.blob_key db

committed_ok : committed ≡ (ok (row_of committed.0), committed.1)
unfolding ensure_for_ingest document_classifier.Uuid.parse_uuid document_classifier.Db.find?
    document_classifier.Db.insert_document document_classifier.Db.document_fits
    document_classifier.Db.update_batch document_classifier.Db.status_valid
    document_classifier.Contracts.status_of_value
committed_ok = refl

process_remote_file_delivers_example :
    process_remote_file tiff 9 100 "request" tiff_path quiet_servers ≡ (
      ok tt,
      delivered tiff 9 100 "request" tiff_path quiet_servers
          (7 ∷ [])
          refl
          refl
          tiff_document
          committed.1,
    )
process_remote_file_delivers_example =
    process_remote_file_delivers tiff 9 100 "request" tiff_path quiet_servers (7 ∷ []) refl refl
      tiff_document (row_of committed.0) committed.1 tiff_valid committed_ok

process_remote_file_quarantines_example :
    process_remote_file tiff 9 100 "request" "incoming/notes.txt" quiet_servers ≡ (
      ok tt,
      record quiet_servers {
        incoming = remove_file "incoming/notes.txt" quiet_servers.incoming;
        quarantine = "incoming/notes.txt" ∷ quiet_servers.quarantine;
      },
    )
process_remote_file_quarantines_example =
    process_remote_file_quarantines tiff 9 100 "request" "incoming/notes.txt" quiet_servers (8 ∷ [])
      refl refl notes_refused
