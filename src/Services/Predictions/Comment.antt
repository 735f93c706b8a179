-- ===== src/Services/Predictions/Comment.antt =====
-- `add_comment` and `rename_document`.
use document_classifier.Prelude.{◌≡◌, Option, some, List, [], ◌∷◌, String}
use document_classifier.Exec.{ok, Exec}
use document_classifier.Uuid.{Uuid, parse_uuid}
use document_classifier.Contracts.{UserOut, PredictionOut}
use document_classifier.Db.{Prediction, Db, prediction_with, find?}
use document_classifier.Repositories.Mapping.{prediction_to_domain}
use document_classifier.Repositories.Predictions as Repo
use document_classifier.Repositories.Predictions.{set_comment, set_name}
use document_classifier.Services.Audit.{Stamp}
use document_classifier.Services.Predictions.{clean_name}
use document_classifier.Services.Predictions.Tail.{edited}

abbrev comment_entry : Option String → Option String → PredictionOut → List (String × Option String)
comment_entry comment color existing =
    ("comment", comment) ∷ ("color", color) ∷ ("document_id", some existing.document_id) ∷ []

-- `db'` is `db` with the comment and its colour in the row of the text, and with the entry of the actor's change.
abbrev pub IsCommented : Stamp → UserOut → String → Option String → Option String → Db → Db → Type 0
IsCommented stamp actor text comment color db db' =
    (u : Uuid) × (old : Prediction) × (existing : PredictionOut) × (a : Uuid) × (parse_uuid text
      ≡ ok u)
    × (find? (prediction_with u) db.predictions ≡ some old)
    × (prediction_to_domain old ≡ ok existing)
    × (parse_uuid actor.id ≡ ok a)
    × (db'
        ≡ edited stamp actor.id "add_comment" (some (comment_entry comment color existing))
            (set_comment comment color) text existing.batch_id u a db)

abbrev rename_entry : Option String → PredictionOut → List (String × Option String)
rename_entry cleaned existing =
    ("from", existing.document_name)
    ∷ ("to", cleaned)
    ∷ ("document_id", some existing.document_id)
    ∷ []

-- `db'` is `db` with the cleaned name in the row of the text, and with the entry of the actor's change.
abbrev pub IsRenamed : Stamp → UserOut → String → Option String → Db → Db → Type 0
IsRenamed stamp actor text name db db' =
    (u : Uuid) × (old : Prediction) × (existing : PredictionOut) × (a : Uuid) × (parse_uuid text
      ≡ ok u)
    × (find? (prediction_with u) db.predictions ≡ some old)
    × (prediction_to_domain old ≡ ok existing)
    × (parse_uuid actor.id ≡ ok a)
    × (db'
        ≡ edited stamp actor.id "rename_document" (some (rename_entry (clean_name name) existing))
            (set_name (clean_name name)) text existing.batch_id u a db)
