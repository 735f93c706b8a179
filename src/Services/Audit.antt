-- ===== src/Services/Audit.antt =====
-- backend/app/services/audit_service.py
use document_classifier.Prelude.{ℕ, ◌≡◌, Option, String, inl, inr, some, none, true, arith}
use document_classifier.Exec.{Exec, ok, Result-cases}
use document_classifier.Uuid.{Uuid, parse_uuid}
use document_classifier.Contracts.{Metadata, AuditLogEntry}
use document_classifier.Db.{
  User, user_with, audit_with, find?, audit_fits, action_valid, AuditLog, Db, insert_row,
  insert_audit,
}
use document_classifier.Repositories.Mapping.{audit_log_to_domain}
use document_classifier.Repositories.Audit

-- The key and the time that the database gives the entry.
pub record Stamp : Type 0 where
  pub id : Uuid
  pub now : ℕ

unfoldable pub record_entry :
    Stamp → Option String → String → String → Option Metadata → Exec Db AuditLogEntry
record_entry stamp actor_id action target metadata =
    Audit.insert stamp.id stamp.now actor_id action target metadata

module _ (stamp : Stamp) (actor : Option String) (action target : String)
    (metadata : Option Metadata) (db : Db) where
  -- The row of the entry, by the actor's key.
  abbrev pub entry_row : Option Uuid → AuditLog
  entry_row a = record {
    id = stamp.id;
    actor_id = a;
    action = action;
    target = target;
    metadata = metadata;
    timestamp = stamp.now;
  }

  -- An entry touches no other table, whether it is made or refused.
  pub users-record_entry : (record_entry stamp actor action target metadata db).1.users ≡ db.users
  unfolding record_entry Audit.insert insert_audit
  users-record_entry = ground arith

  -- An entry of a known user, with an action of the table's list and texts that fit, is made
  -- where its key is new.
  pub record_entry_returns :
      (text : String) (a : Uuid) (user : User)
      → actor ≡ some text
      → parse_uuid text ≡ ok a
      → find? (user_with a) db.users ≡ some user
      → audit_fits (entry_row (some a)) ≡ true
      → action_valid (entry_row (some a)) ≡ true
      → find? (audit_with stamp.id) db.audit_log ≡ none
      → record_entry stamp actor action target metadata db ≡ (
        ok (audit_log_to_domain (entry_row (some a)) none),
        record db { audit_log = insert_row (entry_row (some a)) db.audit_log },
      )
  unfolding record_entry Audit.insert insert_audit Audit.parse_actor
  record_entry_returns text a user named parsed found fit valid fresh = rw named (ground arith)

-- An entry of a user that is made adds one row of that user to the log, and nothing else.
pub record_entry_effect :
    (stamp : Stamp) (text action target : String) (metadata : Option Metadata) (db db' : Db)
    {e : AuditLogEntry}
    → record_entry stamp (some text) action target metadata db ≡ (ok e, db')
    → (u : Uuid) × (parse_uuid text ≡ ok u)
      × (db' ≡ record db {
        audit_log =
            insert_row
              (entry_row stamp (some text) action target metadata db (some u))
              db.audit_log;
      })
unfolding record_entry Audit.insert insert_audit Audit.parse_actor
record_entry_effect stamp text action target metadata db db' h =
    elim (Result-cases (parse_uuid text)) [
      | inl (u, p) ↦ (u, p, ground arith)
      | inr (e, p) ↦ absurd (ground arith)
    ]
