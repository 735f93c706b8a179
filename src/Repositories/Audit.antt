-- ===== src/Repositories/Audit.antt =====
-- backend/app/repositories/audit_repo.py. The key and the time of a new row are arguments.
use document_classifier.Prelude.{ℕ, ◌-◌, ◌*◌, Option, none, some, List, map, String, take, drop}
use document_classifier.Exec.{Exec, Result, ok, err, pure, lift, ◌>>=◌}
use document_classifier.Uuid.{Uuid, parse_uuid}
use document_classifier.Contracts.{Metadata, AuditLogEntry}
use document_classifier.Db.{User, AuditLog, Db, user_with, find?, insert_audit}
use document_classifier.Repositories.Mapping.{audit_log_to_domain}

unfoldable pub parse_actor : Option String → Result (Option Uuid)
parse_actor none = ok none
parse_actor (some text) = elim (parse_uuid text) [ ok u ↦ ok (some u) | err e ↦ err e ]

unfoldable pub insert :
    Uuid → ℕ → Option String → String → String → Option Metadata → Exec Db AuditLogEntry
insert id now actor_id action target metadata = do
  actor ← lift (parse_actor actor_id)
  audit_log ← insert_audit (record {
    id = id;
    actor_id = actor;
    action = action;
    target = target;
    metadata = metadata;
    timestamp = now;
  })
  pure (audit_log_to_domain audit_log none)

-- The outer join with `users`.
unfoldable pub actor_email : List User → Option Uuid → Option String
actor_email users none = none
actor_email users (some actor) = elim (find? (user_with actor) users) [
  | none ↦ none
  | some user ↦ some user.email
]

-- ORDER BY timestamp DESC OFFSET max(page - 1, 0) * limit LIMIT limit
unfoldable pub list : (List AuditLog → List AuditLog) → ℕ → ℕ → Exec Db (List AuditLogEntry)
unfolding actor_email
list newest_first page limit db = (
  ok (
      map (λ (a : AuditLog). audit_log_to_domain a (actor_email db.users a.actor_id))
        (take limit (drop ((page - 1) * limit) (newest_first db.audit_log)))),
  db,
)
