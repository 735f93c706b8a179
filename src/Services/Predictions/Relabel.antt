-- ===== src/Services/Predictions/Relabel.antt =====
-- `relabel`: who may do it, and what it does.
use document_classifier.Prelude.{
  ◌≡◌, ◌⊎◌, ◌≤◌, ◌<◌, true, false, Option, some, List, [], ◌∷◌, String, arith,
}
use document_classifier.Exec.{ok, err, http, Exec}
use document_classifier.Uuid.{Uuid, parse_uuid}
use document_classifier.Contracts.{UserOut, PredictionLabel, PredictionOut, is_admin, label_value}
use document_classifier.Db.{Prediction, Db, prediction_with, find?}
use document_classifier.Repositories.Mapping.{prediction_to_domain}
use document_classifier.Repositories.Predictions as Repo
use document_classifier.Repositories.Predictions.{set_label, update_by, require_prediction}
use document_classifier.Repositories.Predictions.Edits.{db-get}
use document_classifier.Services.Audit.{Stamp}
use document_classifier.Services.Predictions.{relabel_db, relabel_refused, relabel_threshold}
use document_classifier.Services.Predictions.Tail.{edited}

-- Someone who is no admin cannot relabel a prediction that is there with a confidence of 0.7 or
-- more: the call raises a 422 and the tables stay as they were.
pub relabel_high_confidence :
    (stamp : Stamp) (actor : UserOut) (text : String) (label : PredictionLabel) (db : Db)
    → (existing : PredictionOut) → (Repo.get text db).0 ≡ ok existing
    → is_admin actor.role ≡ false
    → relabel_threshold ≤ existing.top1_confidence
    → relabel_db stamp actor text label db ≡ (err (http 422), db)
unfolding relabel_db relabel_refused
relabel_high_confidence stamp actor text label db existing read plain high =
    ground (arith, db-get text db)

abbrev relabel_entry : PredictionOut → PredictionLabel → List (String × Option String)
relabel_entry existing label =
    ("from", some (label_value existing.label)) ∷ ("to", some (label_value label)) ∷ []

-- `db'` is `db` with the new label in the row of the text, and with the entry of the actor's change.
abbrev pub IsRelabelled : Stamp → UserOut → String → PredictionLabel → Db → Db → Type 0
IsRelabelled stamp actor text label db db' =
    (u : Uuid) × (old : Prediction) × (existing : PredictionOut) × (a : Uuid) × (parse_uuid text
      ≡ ok u)
    × (find? (prediction_with u) db.predictions ≡ some old)
    × (prediction_to_domain old ≡ ok existing)
    × (parse_uuid actor.id ≡ ok a)
    × ((is_admin actor.role ≡ true) ⊎ (existing.top1_confidence < relabel_threshold))
    × (db'
        ≡ edited stamp actor.id "relabel" (some (relabel_entry existing label)) (set_label label)
            text existing.batch_id u a db)
