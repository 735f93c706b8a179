-- ===== src/Repositories/Predictions.antt =====
-- backend/app/repositories/prediction_repo.py. The creation time, and the order that the database
-- returns rows of one creation time in, are arguments.
pub mod Upsert
pub mod Pages
pub mod Edits
use document_classifier.Prelude.{
  ℕ, ◌-◌, ◌*◌, Bool, true, false, ◌&&◌, Option, none, some, List, [], ◌∷◌, String, ◌==◌, str_eq,
  if◌then◌else◌, take, drop,
}
use document_classifier.Exec.{Result, ok, err, Exec, lift, gets, ◌>>=◌, data_error}
use document_classifier.Uuid.{Uuid, parse_uuid}
use document_classifier.Contracts.{PredictionLabel, PredictionOut, label_value}
use document_classifier.Db.{
  Prediction, Db, document_with, prediction_with, prediction_of, find?, select_where,
  insert_prediction, update_prediction,
}
use document_classifier.Repositories.Mapping.{
  prediction_to_domain, prediction_top5_to_json, require_row,
}

-- The row of `.values(…)`; the columns that it does not name have their defaults.
unfoldable pub new_row : ℕ → Uuid → Uuid → Uuid → PredictionOut → Prediction
new_row now id document_id batch_id prediction = record {
  id = id;
  document_id = document_id;
  batch_id = batch_id;
  label = label_value prediction.label;
  top1_confidence = prediction.top1_confidence;
  top5 = prediction_top5_to_json prediction.top5;
  overlay_url = prediction.overlay_url;
  model_version = prediction.model_version;
  comment = none;
  comment_color = none;
  latency_ms = prediction.latency_ms;
  document_name = none;
  created_at = now;
}

-- The change of `on_conflict_do_update(set_=…)`.
unfoldable pub overwrite : PredictionOut → Prediction → Prediction
overwrite prediction row = record row {
  label = label_value prediction.label;
  top1_confidence = prediction.top1_confidence;
  top5 = prediction_top5_to_json prediction.top5;
  overlay_url = prediction.overlay_url;
  model_version = prediction.model_version;
  latency_ms = prediction.latency_ms;
}

-- INSERT … ON CONFLICT ON CONSTRAINT uq_predictions_batch_document DO UPDATE
unfoldable pub upsert : Prediction → PredictionOut → Option Prediction → Exec Db Prediction
upsert row prediction none = insert_prediction row
upsert row prediction (some old) = update_prediction old (overwrite prediction)

unfoldable pub create_idempotent : ℕ → PredictionOut → Exec Db PredictionOut
unfolding require_row
create_idempotent now prediction = do
  batch_id ← lift (parse_uuid prediction.batch_id)
  document_id ← lift (parse_uuid prediction.document_id)
  found ← gets (λ (db : Db). find? (document_with document_id) db.documents)
  document ← require_row found
  id ← lift (parse_uuid prediction.id)
  old ← gets (λ (db : Db). find? (prediction_of batch_id document_id) db.predictions)
  saved ← upsert (new_row now id document_id batch_id prediction) prediction old
  lift (prediction_to_domain saved)

unfoldable pub predictions_to_domain : List Prediction → Result (List PredictionOut)
predictions_to_domain [] = ok []
predictions_to_domain (row ∷ rest) = elim (prediction_to_domain row) [
  | ok p ↦ elim (predictions_to_domain rest) [ ok ps ↦ ok (p ∷ ps) | err e ↦ err e ]
  | err e ↦ err e
]

abbrev label_matches : Option PredictionLabel → Prediction → Bool
label_matches none row = true
label_matches (some label) row = str_eq row.label (label_value label)

-- `comment_color = …` is no match where the column is NULL.
abbrev color_matches : Option String → Prediction → Bool
color_matches none row = true
color_matches (some color) row = elim row.comment_color [ none ↦ false | some c ↦ str_eq c color ]

-- The tests of the two WHERE clauses.
unfoldable pub matches : Option PredictionLabel → Option String → Prediction → Bool
matches label_filter color_filter row =
    label_matches label_filter row && color_matches color_filter row

-- The order that one SELECT gives its rows, the newest first. Rows of one time come in any order, and another
-- SELECT may order them otherwise.
module _ (newest_first : List Prediction → List Prediction) where
  -- ORDER BY created_at DESC LIMIT
  unfoldable pub list_recent : ℕ → Exec Db (List PredictionOut)
  list_recent limit db = (predictions_to_domain (take limit (newest_first db.predictions)), db)

  -- The rows of one page: OFFSET (page - 1) * limit LIMIT limit.
  unfoldable pub page_rows : ℕ → ℕ → Option PredictionLabel → Option String → Db → List Prediction
  unfolding matches
  page_rows page limit label_filter color_filter db = take limit (
      drop ((page - 1) * limit)
        (newest_first (select_where (matches label_filter color_filter) db.predictions)))

  -- Page 0 has a negative offset, which the database refuses, unless the limit is 0 too.
  unfoldable pub list_paginated :
      ℕ → ℕ → Option PredictionLabel → Option String → Exec Db (List PredictionOut)
  unfolding page_rows
  list_paginated page limit label_filter color_filter db =
      if page == 0 && (if limit == 0 then false else true)
      then (err data_error, db)
      else (predictions_to_domain (page_rows page limit label_filter color_filter db), db)

unfoldable pub require_prediction : String → Exec Db Prediction
unfolding require_row
require_prediction prediction_id = do
  id ← lift (parse_uuid prediction_id)
  found ← gets (λ (db : Db). find? (prediction_with id) db.predictions)
  require_row found

unfoldable pub get : String → Exec Db PredictionOut
get prediction_id = do row ← require_prediction prediction_id; lift (prediction_to_domain row)

unfoldable pub set_label : PredictionLabel → Prediction → Prediction
set_label new_label row = record row { label = label_value new_label }

unfoldable pub set_comment : Option String → Option String → Prediction → Prediction
set_comment comment color row = record row { comment = comment; comment_color = color }

unfoldable pub set_name : Option String → Prediction → Prediction
set_name document_name row = record row { document_name = document_name }

-- `session.get`, the assignments, the flush and the mapping that the three updates share.
unfoldable pub update_by : (Prediction → Prediction) → String → Exec Db PredictionOut
update_by change prediction_id = do
  row ← require_prediction prediction_id
  updated ← update_prediction row change
  lift (prediction_to_domain updated)

unfoldable pub update_label : String → PredictionLabel → Exec Db PredictionOut
unfolding update_by set_label
update_label prediction_id new_label = update_by (set_label new_label) prediction_id

unfoldable pub update_comment : String → Option String → Option String → Exec Db PredictionOut
unfolding update_by set_comment
update_comment prediction_id comment color = update_by (set_comment comment color) prediction_id

unfoldable pub update_name : String → Option String → Exec Db PredictionOut
unfolding update_by set_name
update_name prediction_id document_name = update_by (set_name document_name) prediction_id
