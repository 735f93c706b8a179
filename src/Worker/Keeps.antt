-- ===== src/Worker/Keeps.antt =====
-- What the record of a prediction does to the predictions, for a predicate of their overlays.
use document_classifier.Prelude.{
  ℕ, ◌≡◌, Option, some, none, List, [], ◌∷◌, String, Bool, inl, inr, arith, Bool-cases, All,
}
use document_classifier.Exec.{Result-cases}
use document_classifier.Uuid.{Uuid}
use document_classifier.Contracts.{Metadata, PredictionOut}
use document_classifier.Db.{
  Prediction, Db, prediction_of, prediction_with, find?, modify_where, insert_row,
  insert_prediction, update_prediction, insert_audit,
}
use document_classifier.Repositories.Audit
use document_classifier.Repositories.Predictions.{new_row, overwrite, upsert, create_idempotent}
use document_classifier.Repositories.Predictions.Upsert.{db-create_idempotent}
use document_classifier.Services.Audit.{Stamp, record_entry}
use document_classifier.Services.Predictions.{record_prediction_db}

All-insert_row :
    {A : Type 0} (P : A → Type 0) (a : A) (rows : List A)
    → P a
    → All P rows
    → All P (insert_row a rows)
unfolding insert_row
All-insert_row P a [] h k = (h, tt)
All-insert_row P a (x ∷ rows) h k = (k.0, All-insert_row P a rows h k.1)

All-modify_where :
    {A : Type 0} (P : A → Type 0) (p : A → Bool) (f : A → A) (rows : List A)
    → ((a : A) → P (f a))
    → All P rows
    → All P (modify_where p f rows)
unfolding modify_where
All-modify_where P p f [] h k = tt
All-modify_where P p f (x ∷ rows) h k = (
  elim (Bool-cases (p x)) [ inl hit ↦ rw hit (h x) | inr miss ↦ rw miss k.0 ],
  All-modify_where P p f rows h k.1,
)

predictions-record_entry :
    (stamp : Stamp) (actor : Option String) (action target : String) (metadata : Option Metadata)
    (db : Db)
    → (record_entry stamp actor action target metadata db).1.predictions ≡ db.predictions
unfolding record_entry Audit.insert insert_audit
predictions-record_entry stamp actor action target metadata db = ground arith

module _ (P : Option String → Type 0) where
  -- The overlays of all predictions are such.
  abbrev pub Overlays : Db → Type 0
  Overlays db = All (λ (r : Prediction). P r.overlay_url) db.predictions

  module _ (p : PredictionOut) (shown : P p.overlay_url) where
    upsert-Overlays :
        (now : ℕ) (id b d : Uuid) (old : Option Prediction) (db : Db)
        → Overlays db
        → Overlays (upsert (new_row now id d b p) p old db).1
    unfolding upsert insert_prediction update_prediction new_row overwrite
    upsert-Overlays now id b d none db h =
        elim (Result-cases (upsert (new_row now id d b p) p none db).0) [
          | inr (e, k) ↦
              let same : (upsert (new_row now id d b p) p none db).1 ≡ db = ground arith in
              rw same h
          | inl (r, k) ↦
              let same : (upsert (new_row now id d b p) p none db).1.predictions
                  ≡ insert_row (new_row now id d b p) db.predictions =
                ground arith in
              rw same (
                All-insert_row (λ (r : Prediction). P r.overlay_url) (new_row now id d b p)
                  db.predictions shown h)
        ]
    upsert-Overlays now id b d (some old) db h =
        elim (Result-cases (upsert (new_row now id d b p) p (some old) db).0) [
          | inr (e, k) ↦
              let same : (upsert (new_row now id d b p) p (some old) db).1 ≡ db = ground arith in
              rw same h
          | inl (r, k) ↦
              let same : (upsert (new_row now id d b p) p (some old) db).1.predictions
                  ≡ modify_where (prediction_with old.id) (overwrite p) db.predictions =
                ground arith in
              rw same (
                All-modify_where (λ (r : Prediction). P r.overlay_url) (prediction_with old.id)
                  (overwrite p) db.predictions (λ r. shown) h)
        ]

    create-Overlays : (now : ℕ) (db : Db) → Overlays db → Overlays (create_idempotent now p db).1
    create-Overlays now db h = elim (db-create_idempotent now p db) [
      | inl same ↦ rw same h
      | inr (id, b, d, same) ↦
          rw same (upsert-Overlays now id b d (find? (prediction_of b d) db.predictions) db h)
    ]

    pub record-Overlays :
        (stamp : Stamp) (request_id : String) (db : Db)
        → Overlays db
        → Overlays (record_prediction_db stamp p request_id db).1
    unfolding record_prediction_db
    record-Overlays stamp request_id db h =
        let created = create-Overlays stamp.now db h in
        elim (Result-cases (create_idempotent stamp.now p db).0) [
          | inr (e, k) ↦
              let same : (record_prediction_db stamp p request_id db).1
                  ≡ (create_idempotent stamp.now p db).1 =
                ground arith in
              rw same created
          | inl (saved, k) ↦
              let db' = (create_idempotent stamp.now p db).1 in
              let metadata : Option Metadata = some (
                ("document_id", some p.document_id)
                ∷ ("request_id", some request_id)
                ∷ ("source", some "worker")
                ∷ []) in
              let same : (record_prediction_db stamp p request_id db).1.predictions
                  ≡ db'.predictions =
                ground (
                  arith,
                  predictions-record_entry stamp none "batch_state" p.batch_id metadata db',
                ) in
              rw same created
        ]
