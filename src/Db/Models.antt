-- ===== src/Db/Models.antt =====
-- backend/app/db/models.py: a row of each table, the tables together, and the constraints that the
-- models declare, as tests which an INSERT or an UPDATE makes.
use document_classifier.Prelude.{
  ℕ, Bool, true, false, ◌&&◌, ◌||◌, not, Option, none, some, List, String, leb, ◌==◌, str_eq,
  str_len, fits, is_some, if◌then◌else◌,
}
use document_classifier.Exec.{ok, err, Exec, is_ok, data_error, integrity_error}
use document_classifier.Uuid.{Uuid}
use document_classifier.Contracts.{Metadata, role_of_value, status_of_value, label_of_value}
use document_classifier.Db.Table.{find?, insert_row, modify_where, remove_where}

pub record User : Type 0 where
  pub id : Uuid
  pub email : String
  pub hashed_password : String
  pub role : String
  pub is_active : Bool
  pub created_at : ℕ

pub record Batch : Type 0 where
  pub id : Uuid
  pub status : String
  pub document_count : ℕ
  pub created_at : ℕ

pub record Document : Type 0 where
  pub id : Uuid
  pub batch_id : Uuid
  pub blob_key : String
  pub created_at : ℕ

pub record Prediction : Type 0 where
  pub id : Uuid
  pub document_id : Uuid
  pub batch_id : Uuid
  pub label : String
  pub top1_confidence : ℕ
  pub top5 : List (String × ℕ)
  pub overlay_url : Option String
  pub model_version : String
  pub comment : Option String
  pub comment_color : Option String
  pub latency_ms : Option ℕ
  pub document_name : Option String
  pub created_at : ℕ

pub record AuditLog : Type 0 where
  pub id : Uuid
  pub actor_id : Option Uuid
  pub action : String
  pub target : String
  pub metadata : Option Metadata
  pub timestamp : ℕ

pub record Db : Type 0 where
  pub users : List User
  pub batches : List Batch
  pub documents : List Document
  pub predictions : List Prediction
  pub audit_log : List AuditLog

-- Primary keys.
abbrev pub user_with : Uuid → User → Bool
user_with u r = r.id == u

abbrev pub batch_with : Uuid → Batch → Bool
batch_with u r = r.id == u

abbrev pub document_with : Uuid → Document → Bool
document_with u r = r.id == u

abbrev pub prediction_with : Uuid → Prediction → Bool
prediction_with u r = r.id == u

abbrev pub audit_with : Uuid → AuditLog → Bool
audit_with u r = r.id == u

abbrev pub email_is : String → User → Bool
email_is email r = str_eq r.email email

-- Of `uq_predictions_batch_document`.
abbrev pub prediction_of : Uuid → Uuid → Prediction → Bool
prediction_of b d r = r.batch_id == b && r.document_id == d

-- The columns' lengths, and `ck_users_role_valid`.
unfoldable pub user_fits : User → Bool
user_fits r =
    leb (str_len r.email) 255 && leb (str_len r.hashed_password) 255 && leb (str_len r.role) 20

unfoldable pub role_valid : User → Bool
role_valid r = is_ok (role_of_value r.role)

-- `ck_batches_status_valid`
unfoldable pub status_valid : Batch → Bool
status_valid r = is_ok (status_of_value r.status)

unfoldable pub document_fits : Document → Bool
document_fits r = leb (str_len r.blob_key) 500

unfoldable pub prediction_fits : Prediction → Bool
prediction_fits r =
    leb (str_len r.label) 50
    && fits 500 r.overlay_url
    && leb (str_len r.model_version) 50
    && fits 2000 r.comment
    && fits 20 r.comment_color
    && fits 255 r.document_name

-- `ck_predictions_label_valid` and `ck_predictions_top1_confidence_range`
unfoldable pub prediction_valid : Prediction → Bool
prediction_valid r = is_ok (label_of_value r.label) && leb r.top1_confidence 10_000_000_000

unfoldable pub audit_fits : AuditLog → Bool
audit_fits r = leb (str_len r.action) 20 && leb (str_len r.target) 255

-- `ck_audit_log_action_valid`
unfoldable pub action_valid : AuditLog → Bool
action_valid r =
    str_eq r.action "role_change"
    || str_eq r.action "relabel"
    || str_eq r.action "batch_state"
    || str_eq r.action "add_comment"
    || str_eq r.action "delete_user"
    || str_eq r.action "rename_document"

-- What the database does with a row that is written: too long a text, a broken constraint, or `done`.
abbrev pub checked {ℓ κ} : {S : Type ℓ} {A : Type κ} → Bool → Bool → Exec S A → Exec S A
checked fit valid done s =
    if fit then (if valid then done s else (err integrity_error, s)) else (err data_error, s)

-- INSERT INTO users: the key and the email are unique.
unfoldable pub insert_user : User → Exec Db User
insert_user r db =
    checked (user_fits r)
      (role_valid r
        && not (is_some (find? (user_with r.id) db.users))
        && not (is_some (find? (email_is r.email) db.users)))
      (λ d. (ok r, record d { users = insert_row r d.users })) db

-- UPDATE users SET … WHERE id, for a change of the row read that keeps its key and its email.
unfoldable pub update_user : User → (User → User) → Exec Db User
update_user r change =
    checked (user_fits (change r)) (role_valid (change r))
      (λ d. (ok (change r), record d { users = modify_where (user_with r.id) change d.users }))

-- The foreign key of `audit_log.actor_id` is ON DELETE SET NULL.
abbrev pub forget_actor : Uuid → AuditLog → AuditLog
forget_actor u r = record r { actor_id = none }

abbrev pub acted_by : Uuid → AuditLog → Bool
acted_by u r = elim r.actor_id [ none ↦ false | some a ↦ a == u ]

unfoldable pub delete_user_row : Uuid → Db → Db
delete_user_row u d = record d {
  users = remove_where (user_with u) d.users;
  audit_log = modify_where (acted_by u) (forget_actor u) d.audit_log;
}

unfoldable pub insert_batch : Batch → Exec Db Batch
insert_batch r db =
    checked true (status_valid r && not (is_some (find? (batch_with r.id) db.batches)))
      (λ d. (ok r, record d { batches = insert_row r d.batches })) db

unfoldable pub update_batch : Batch → (Batch → Batch) → Exec Db Batch
update_batch r change =
    checked true (status_valid (change r))
      (λ d. (ok (change r), record d { batches = modify_where (batch_with r.id) change d.batches }))

-- The batch of a document is a foreign key.
unfoldable pub insert_document : Document → Exec Db Document
insert_document r db =
    checked (document_fits r)
      (is_some (find? (batch_with r.batch_id) db.batches)
        && not (is_some (find? (document_with r.id) db.documents)))
      (λ d. (ok r, record d { documents = insert_row r d.documents })) db

unfoldable pub update_document : Document → (Document → Document) → Exec Db Document
update_document r change = checked (document_fits (change r)) true (λ d.
    (ok (change r), record d { documents = modify_where (document_with r.id) change d.documents }))

unfoldable pub update_prediction : Prediction → (Prediction → Prediction) → Exec Db Prediction
update_prediction r change =
    checked (prediction_fits (change r)) (prediction_valid (change r)) (λ d. (
      ok (change r),
      record d { predictions = modify_where (prediction_with r.id) change d.predictions },
    ))

-- Batch and document of a prediction are foreign keys.
unfoldable pub insert_prediction : Prediction → Exec Db Prediction
insert_prediction r db =
    checked (prediction_fits r)
      (prediction_valid r
        && is_some (find? (batch_with r.batch_id) db.batches)
        && is_some (find? (document_with r.document_id) db.documents)
        && not (is_some (find? (prediction_with r.id) db.predictions)))
      (λ d. (ok r, record d { predictions = insert_row r d.predictions })) db

-- The actor of an entry is a foreign key.
unfoldable pub insert_audit : AuditLog → Exec Db AuditLog
insert_audit r db =
    checked (audit_fits r)
      (action_valid r
        && elim r.actor_id [ none ↦ true | some a ↦ is_some (find? (user_with a) db.users) ]
        && not (is_some (find? (audit_with r.id) db.audit_log)))
      (λ d. (ok r, record d { audit_log = insert_row r d.audit_log })) db
