-- ===== src/Repositories/Predictions/Upsert.antt =====
-- `create_idempotent`: one prediction for a document of a batch, whatever is recorded.
use document_classifier.Prelude.{
  ℕ, ◌≤◌, ◌≡◌, ◌⊎◌, refl, ap, ◌∙◌, ◌&&◌, some, inl, inr, arith, ◌==◌, Bool-cases, Option-cases,
}
use document_classifier.Exec.{ok, Result-cases}
use document_classifier.Uuid.{Uuid, parse_uuid}
use document_classifier.Contracts.{PredictionOut, label_value}
use document_classifier.Db.{
  Prediction, Db, document_with, prediction_with, prediction_of, find?, count_where, modify_where,
  insert_prediction, update_prediction, count_where-insert_row, count_where-zero_of_find,
  count_where-modify_where, find?-modify_where_hit,
}
use document_classifier.Repositories.Mapping.{prediction_top5_to_json, require_row}
use document_classifier.Repositories.Predictions.{new_row, overwrite, upsert, create_idempotent}

-- `uq_predictions_batch_document`
pub record IsUnique (db : Db) : Type 0 where
  pub one : (b d : Uuid) → count_where (prediction_of b d) db.predictions ≤ 1

upsert-IsUnique :
    (now : ℕ) (id b d : Uuid) (p : PredictionOut) (db : Db)
    → IsUnique db
    → IsUnique (upsert (new_row now id d b p) p (find? (prediction_of b d) db.predictions) db).1
unfolding upsert insert_prediction update_prediction new_row overwrite
upsert-IsUnique now id b d p db h = elim (Option-cases (find? (prediction_of b d) db.predictions)) [
  | inr (old, found) ↦ record {
    one = λ x y. ground (
      arith,
      h.one x y,
      count_where-modify_where (prediction_with old.id) (prediction_of x y) (overwrite p)
          db.predictions (λ r. refl),
    );
  }
  | inl missing ↦ record {
    one = λ x y. elim (Bool-cases (b == x && d == y)) [
      | inl same ↦
          let e : b ≡ x = ground arith in
          let k : d ≡ y = ground arith in
          ground (
            arith,
            count_where-insert_row (prediction_of x y) (new_row now id d b p) db.predictions,
            count_where-zero_of_find (prediction_of b d) db.predictions missing,
          )
      | inr other ↦ ground (
        arith,
        h.one x y,
        count_where-insert_row (prediction_of x y) (new_row now id d b p) db.predictions,
      )
    ];
  }
]

-- The call leaves the tables alone, or does what its upsert does to them.
pub db-create_idempotent :
    (now : ℕ) (p : PredictionOut) (db : Db)
    → ((create_idempotent now p db).1 ≡ db)
      ⊎ ((id b d : Uuid) × ((create_idempotent now p db).1
            ≡ (upsert (new_row now id d b p) p (find? (prediction_of b d) db.predictions) db).1))
unfolding create_idempotent require_row
db-create_idempotent now p db = elim (Result-cases (parse_uuid p.batch_id)) [
  | inr (e, k) ↦ inl (ground arith)
  | inl (b, k) ↦ elim (Result-cases (parse_uuid p.document_id)) [
    | inr (e, l) ↦ inl (ground arith)
    | inl (d, l) ↦ elim (Option-cases (find? (document_with d) db.documents)) [
      | inl missing ↦ inl (ground arith)
      | inr (row, found) ↦ elim (Result-cases (parse_uuid p.id)) [
        | inr (e, m) ↦ inl (ground arith)
        | inl (id, m) ↦ inr (id, b, d, ground arith)
      ]
    ]
  ]
]

-- Where there is one row at most for each document of each batch, it is so after a prediction is
-- recorded, whatever it records and whether the call returns or raises.
pub create_idempotent-IsUnique :
    (now : ℕ) (p : PredictionOut) (db : Db) → IsUnique db → IsUnique (create_idempotent now p db).1
create_idempotent-IsUnique now p db h = elim (db-create_idempotent now p db) [
  | inl same ↦ rw same h
  | inr (id, b, d, same) ↦ rw same (upsert-IsUnique now id b d p db h)
]

-- What a prediction that is recorded a second time changes, and what it keeps: the row's key, its
-- creation time, and what people wrote to it.
abbrev pub Recorded : PredictionOut → Prediction → Type 0
Recorded p r =
    (r.label ≡ label_value p.label)
    × (r.top1_confidence ≡ p.top1_confidence)
    × (r.top5 ≡ prediction_top5_to_json p.top5)
    × (r.overlay_url ≡ p.overlay_url)
    × (r.model_version ≡ p.model_version)
    × (r.latency_ms ≡ p.latency_ms)

abbrev pub KeptFrom : Prediction → Prediction → Type 0
KeptFrom old r =
    (r.id ≡ old.id)
    × (r.created_at ≡ old.created_at)
    × (r.comment ≡ old.comment)
    × (r.comment_color ≡ old.comment_color)
    × (r.document_name ≡ old.document_name)

-- Where the document of the batch has a prediction, a record that returns leaves what was recorded in
-- that row, and keeps its key, its time, its comment with the colour, and its name.
pub create_idempotent_again :
    (now : ℕ) (p : PredictionOut) (b d : Uuid) (old : Prediction) (db db' : Db)
    {out : PredictionOut}
    → parse_uuid p.batch_id ≡ ok b
    → parse_uuid p.document_id ≡ ok d
    → find? (prediction_of b d) db.predictions ≡ some old
    → create_idempotent now p db ≡ (ok out, db')
    → (r : Prediction) × (find? (prediction_of b d) db'.predictions ≡ some r)
      × Recorded p r
      × KeptFrom old r
unfolding create_idempotent upsert update_prediction overwrite
create_idempotent_again now p b d old db db' kb kd found e =
    let written : db'.predictions
        ≡ modify_where (prediction_with old.id) (overwrite p) db.predictions =
      ground arith in
    (
      overwrite p old,
      ap (find? (prediction_of b d)) written
          ∙ find?-modify_where_hit (prediction_with old.id) (prediction_of b d) (overwrite p)
              db.predictions old (λ x. refl) found (ground arith),
      (refl, refl, refl, refl, refl, refl),
      (refl, refl, refl, refl, refl),
    )
