-- ===== src/Tests/Start.antt =====
-- Runs of the predictor and of the start of the worker.
use document_classifier.Prelude.{
  Bool, ℕ, ◌≤◌, ◌≡◌, refl, true, Option, none, some, [], ◌∷◌, String, str_len, str_eq, ltb,
  if◌then◌else◌,
}
use document_classifier.Exec.{working, Result, ok, err, Error, vault_unreachable, connection_error}
use document_classifier.Contracts.{ClassifyJob}
use document_classifier.Blob.{Bytes}
use document_classifier.Classifier.StartupChecks.{
  Entry, readable, Reading, json, object, word, number, ModelCard,
}
use document_classifier.Classifier.Predictor.{Torch, Predictor, predict_topk, get_predictor}
use document_classifier.Vault.{Secret}
use document_classifier.Worker.{Station, classify_job}
use document_classifier.Worker.Payload.{model_dump}
use document_classifier.Worker.Entry.{Dependencies, new_dependencies, handle}
use document_classifier.Worker.Boot.{VersionCard, start}
use document_classifier.Worker.Ready.{Ends, start-Ends, handle-start}
use document_classifier.Tests.Data.{stamp, world, memory, codecs, batch_text, document_text}
use document_classifier.Tests.Torch.{torch}

abbrev predictor : Predictor torch
predictor = record { weights_path = "classifier.pt"; model = some tt }

abbrev job : ClassifyJob
job = record {
  batch_id = batch_text;
  document_id = document_text;
  blob_key = "documents/3/4.tif";
  request_id = "request";
}

abbrev station : Station memory.Store
station = record { objects = []; world = world; drawn = 0; schedule = [] }

abbrev drawn_overlay : String → ℕ → Bytes
drawn_overlay text confidence = str_len text ∷ confidence ∷ []

abbrev overlay : Bytes → String → ℕ → Result Bytes
overlay bytes text confidence = ok (drawn_overlay text confidence)

abbrev uuids : ℕ → String
uuids n = batch_text

-- The start with a card whose name is too long.
abbrev files : String → Entry String
files path = if str_eq path "classifier.pt" then readable "weights" else readable "card"

abbrev card : ModelCard ℕ
card = record { sha256 = word "0123456789abcdef"; test_top1 = number true 87 }

abbrev version_card : VersionCard
version_card = record {
  backbone = some "convnext_tiny";
  weights_enum = some "ConvNeXt_Tiny_Weights.IMAGENET1K_V1";
  freeze_policy = some "head";
  sha256 = some "0123456789abcdef";
  trained_at = some "2026-05-01";
}

abbrev vault : String → Result (Option Secret)
vault path = err vault_unreachable

abbrev of_client : Error → Bool
of_client e = true

abbrev worker_blob : String × String → Result String
worker_blob keys = ok "blob"

abbrev worker_service : String → Result String
worker_service dsn = ok "service"

abbrev fake_blob : String
fake_blob = "fake blob"

abbrev fake_service : String
fake_service = "fake service"

abbrev read_card : String → Reading VersionCard
read_card path = json (object version_card)

abbrev parse : String → Reading (ModelCard ℕ)
parse text = json (object card)

abbrev digest : String → String
digest file = "0123456789abcdef"

-- The queue cannot be opened.
start-Ends_example :
    Ends torch files parse digest ltb 50 read_card vault of_client worker_blob worker_service
      fake_blob fake_service
      (err connection_error)
      "classifier.pt"
      "model_card.json"
      true
      new_dependencies
      (start torch files parse digest ltb 50 read_card vault of_client worker_blob worker_service
        fake_blob fake_service
        (err connection_error)
        "classifier.pt"
        "model_card.json"
        true
        none
        new_dependencies)
start-Ends_example =
    start-Ends torch files parse digest ltb 50 read_card vault of_client worker_blob worker_service
      fake_blob fake_service (err connection_error) "classifier.pt" "model_card.json" true
      new_dependencies

abbrev ready : Dependencies (Predictor torch) String String
ready = record {
  predictor = some predictor;
  blob = some "fake blob";
  prediction_service = some "fake service";
  model_version = some "convnext_tiny_ConvNeXt_Tiny_Weights.IMAGENET1K_V1_";
}

starts :
    start torch files parse digest ltb 50 read_card vault of_client worker_blob worker_service
      fake_blob fake_service
      (ok tt)
      "classifier.pt"
      "model_card.json"
      true
      none
      new_dependencies
    ≡ (working, ready)
unfolding start document_classifier.Classifier.StartupChecks.run_all_startup_checks get_predictor
    document_classifier.Classifier.Predictor.create_predictor
    document_classifier.Worker.Boot.name_version document_classifier.Worker.Boot.version_of
    document_classifier.Worker.Boot.full_version document_classifier.Worker.Boot.connect
    document_classifier.Worker.Boot.make_adapters
    document_classifier.Worker.Entry.inject_dependencies document_classifier.Worker.Boot.str_take
starts = refl

handle-start_example :
    (network : torch.Network) × (version : String) × (torch.load "classifier.pt" ≡ ok network)
    × (str_len version ≤ 50)
    × (handle torch memory codecs overlay uuids stamp ready (model_dump job) station
        ≡ classify_job memory codecs
            (predict_topk torch (record { weights_path = "classifier.pt"; model = some network }))
            overlay
            version
            uuids
            stamp
            job
            station)
handle-start_example =
    handle-start torch files parse digest ltb 50 read_card vault of_client worker_blob
      worker_service fake_blob fake_service (ok tt) "classifier.pt" "model_card.json" true
      new_dependencies memory codecs overlay uuids stamp ready starts job station
