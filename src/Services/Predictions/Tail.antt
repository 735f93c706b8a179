-- ===== src/Services/Predictions/Tail.antt =====
-- How the three edits end: the change of the row, then its entry in the audit log.
use document_classifier.Prelude.{◌≡◌, Option, some, String, inl, inr, arith}
use document_classifier.Exec.{ok, Exec, pure, ◌>>=◌, ◌>>◌, Result-cases}
use document_classifier.Uuid.{Uuid, parse_uuid}
use document_classifier.Contracts.{Metadata, PredictionOut}
use document_classifier.Db.{Prediction, Db, prediction_with, find?, modify_where, insert_row}
use document_classifier.Repositories.Mapping.{prediction_to_domain}
use document_classifier.Repositories.Predictions.{update_by}
use document_classifier.Repositories.Predictions.Edits.{update_by_effect}
use document_classifier.Services.Audit.{Stamp, record_entry, entry_row, record_entry_effect}

module _ (stamp : Stamp) (actor action : String) (metadata : Option Metadata)
    (change : Prediction → Prediction) (text batch : String) where
  unfoldable pub edit_tail : Exec Db (String × PredictionOut)
  edit_tail = do
    updated ← update_by change text
    record_entry stamp (some actor) action text metadata
    pure (batch, updated)

  -- The tables after an edit of the prediction `u` by `a`.
  abbrev pub edited : Uuid → Uuid → Db → Db
  edited u a db = record db {
    predictions = modify_where (prediction_with u) change db.predictions;
    audit_log =
        insert_row (entry_row stamp (some actor) action text metadata db (some a)) db.audit_log;
  }

  -- An ending that returns has changed one row, and added one entry of the actor to the log, and nothing else.
  pub edit_tail_effect :
      (db db' : Db) (out : String × PredictionOut)
      → edit_tail db ≡ (ok out, db')
      → (u : Uuid) × (old : Prediction) × (a : Uuid) × (parse_uuid text ≡ ok u)
        × (find? (prediction_with u) db.predictions ≡ some old)
        × (db' ≡ edited u a db)
        × (parse_uuid actor ≡ ok a)
        × (prediction_to_domain (change old) ≡ ok out.1)
        × (out.0 ≡ batch)
  unfolding edit_tail
  edit_tail_effect db db' out e = elim (Result-cases (update_by change text db).0) [
    | inr (x, k) ↦ absurd (ground arith)
    | inl (updated, k) ↦
        let between = (update_by change text db).1 in
        let (u, old, parsed, found, same, mapped) =
          update_by_effect change text db between {out = updated} (ground arith) in
        elim (Result-cases (record_entry stamp (some actor) action text metadata between).0) [
          | inr (x, l) ↦ absurd (ground arith)
          | inl (entry, l) ↦
              let after = (record_entry stamp (some actor) action text metadata between).1 in
              let (a, acted, logged) =
                record_entry_effect stamp actor action text metadata between after {e = entry}
                  (ground arith) in
              (u, old, a, parsed, found, ground arith, acted, ground arith, ground arith)
        ]
  ]
