-- ===== src/Repositories/Predictions/Edits.antt =====
-- The three edits of one prediction: what they change, and that they change nothing else.
use document_classifier.Prelude.{◌≡◌, some, String, inl, inr, arith, Option-cases}
use document_classifier.Exec.{ok, Result-cases}
use document_classifier.Uuid.{Uuid, parse_uuid}
use document_classifier.Contracts.{PredictionOut}
use document_classifier.Db.{
  Prediction, Db, prediction_with, find?, find?-holds, modify_where, update_prediction,
}
use document_classifier.Repositories.Mapping.{prediction_to_domain}
use document_classifier.Repositories.Predictions as Repo
use document_classifier.Repositories.Predictions.{
  require_prediction, update_by, set_label, set_comment, set_name, update_label, update_comment,
  update_name,
}

-- The tables with one prediction changed.
abbrev pub with_change : Uuid → (Prediction → Prediction) → Db → Db
with_change u change db = record db {
  predictions = modify_where (prediction_with u) change db.predictions;
}

module _ (change : Prediction → Prediction) (text : String) (db : Db) where
  -- An edit that returns read a row by its key, and changed this row; its result is the row changed.
  pub update_by_effect :
      (db' : Db) {out : PredictionOut}
      → update_by change text db ≡ (ok out, db')
      → (u : Uuid) × (old : Prediction) × (parse_uuid text ≡ ok u)
        × (find? (prediction_with u) db.predictions ≡ some old)
        × (db' ≡ with_change u change db)
        × (prediction_to_domain (change old) ≡ ok out)
  unfolding update_by require_prediction update_prediction
  update_by_effect db' e = elim (Result-cases (parse_uuid text)) [
    | inr (x, k) ↦ absurd (ground arith)
    | inl (u, k) ↦ elim (Option-cases (find? (prediction_with u) db.predictions)) [
      | inl missing ↦ absurd (ground arith)
      | inr (old, found) ↦
          let key = find?-holds (prediction_with u) db.predictions old found in
          let same : old.id ≡ u = ground arith in (u, old, k, found, ground arith, ground arith)
    ]
  ]

-- A read changes nothing.
pub db-get : (text : String) (db : Db) → (Repo.get text db).1 ≡ db
unfolding Repo.get require_prediction
db-get text db = ground arith

-- What a read returns is the row of the key that its text names.
pub get_effect :
    (text : String) (db : Db) (u : Uuid) (old : Prediction) {out : PredictionOut}
    → (Repo.get text db).0 ≡ ok out
    → parse_uuid text ≡ ok u
    → find? (prediction_with u) db.predictions ≡ some old
    → prediction_to_domain old ≡ ok out
unfolding Repo.get require_prediction
get_effect text db u old e parsed found = ground arith
