-- ===== src/Migrations/Models.antt =====
-- The tables that the migrations of backend/alembic leave, and the models of backend/app/db/models.py.
use document_classifier.Prelude.{
  member, ◌≡◌, refl, ap, ◌∙◌, true, ◌&&◌, Bool-cases, inl, inr, some, List, [], ◌∷◌, ◌++◌, String,
  str_eq, eq_iff, leb, str_len, arith, ℕ, Bool,
}
use document_classifier.Exec.{is_ok-if, is_ok}
use document_classifier.Contracts.{role_of_value, status_of_value, label_of_value}
use document_classifier.Db.{
  User, Batch, Document, Prediction, AuditLog, user_fits, role_valid, status_valid, document_fits,
  prediction_fits, prediction_valid, audit_fits, action_valid,
}
use document_classifier.Migrations.Catalog.{
  Table, real, text, check_in, primary_key, foreign_key, find_table,
}
use document_classifier.Migrations.Initial.{
  users, batches, casbin_rule, audit_log, documents, predictions, optional, labels,
}
use document_classifier.Migrations.Later.{upgrade_head, actions_0004}
use document_classifier.Migrations.Rows.{
  takes, head, user_row, batch_row, document_row, prediction_row, audit_row,
}

-- The two tables that later migrations change, as they are in the end.
abbrev migrated_predictions : Table
migrated_predictions = record predictions {
  columns =
      predictions.columns
      ++ (optional "comment" (text 2000)
          ∷ optional "comment_color" (text 20)
          ∷ optional "latency_ms" real
          ∷ optional "document_name" (text 255)
          ∷ []);
}

abbrev migrated_audit_log : Table
migrated_audit_log = record audit_log {
  constraints =
      foreign_key "actor_id" "users.id" "SET NULL"
      ∷ primary_key ("id" ∷ [])
      ∷ check_in "ck_audit_log_action_valid" "action" actions_0004
      ∷ [];
}

abbrev migrated : List Table
migrated =
    users ∷ batches ∷ casbin_rule ∷ migrated_audit_log ∷ documents ∷ migrated_predictions ∷ []

tables_at_head : head.tables ≡ migrated
unfolding upgrade_head
tables_at_head = refl

-- The texts that a check allows are shorter than its column.
abbrev all_short : ℕ → List String → Bool
all_short n [] = true
all_short n (x ∷ xs) = leb (str_len x) n && all_short n xs

member_short :
    (n : ℕ) (s : String) (xs : List String)
    → all_short n xs ≡ true
    → member s xs ≡ true
    → leb (str_len s) n ≡ true
unfolding member
member_short n s [] h m = cc
member_short n s (x ∷ xs) h m = elim (Bool-cases (str_eq s x)) [
  | inl e ↦ rw ((eq_iff s x).0 e) (ground arith)
  | inr e ↦ member_short n s xs (ground arith) (ground arith)
]

status_member :
    (s : String)
    → member s ("pending" ∷ "processing" ∷ "complete" ∷ "failed" ∷ []) ≡ is_ok (status_of_value s)
unfolding status_of_value member
status_member s = ground arith

label_member : (s : String) → member s labels ≡ is_ok (label_of_value s)
unfolding label_of_value member
label_member s = simp is_ok-if

action_member : (s : AuditLog) → member s.action actions_0004 ≡ action_valid s
unfolding action_valid member
action_member s = ground arith

takes-user : (r : User) → takes (some users) (user_row r) ≡ (user_fits r && role_valid r)
unfolding takes user_row users user_fits role_valid role_of_value member
takes-user r = ground arith

takes-batch : (r : Batch) → takes (some batches) (batch_row r) ≡ status_valid r
unfolding takes batch_row batches status_valid
takes-batch r = ground (
  arith,
  status_member r.status,
  member_short 20 r.status ("pending" ∷ "processing" ∷ "complete" ∷ "failed" ∷ []) refl,
)

takes-document : (r : Document) → takes (some documents) (document_row r) ≡ document_fits r
unfolding takes document_row documents document_fits
takes-document r = ground arith

takes-prediction :
    (r : Prediction)
    → takes (some migrated_predictions) (prediction_row r)
      ≡ (prediction_fits r && prediction_valid r)
unfolding takes prediction_row predictions prediction_fits prediction_valid
takes-prediction r = ground (arith, label_member r.label)

takes-audit :
    (r : AuditLog)
    → takes (some migrated_audit_log) (audit_row r) ≡ (audit_fits r && action_valid r)
unfolding takes audit_row audit_log audit_fits
takes-audit r = rw (← action_member r) (ground arith)

-- After all migrations of an empty database, each table takes a row of its model exactly if the row passes the tests of the
-- model: the lengths of its columns and its checks.
pub upgrade_head-takes :
    (u : User) (b : Batch) (d : Document) (p : Prediction) (a : AuditLog)
    → (takes (find_table "users" head.tables) (user_row u) ≡ (user_fits u && role_valid u))
      × (takes (find_table "batches" head.tables) (batch_row b) ≡ status_valid b)
      × (takes (find_table "documents" head.tables) (document_row d) ≡ document_fits d)
      × (takes (find_table "predictions" head.tables) (prediction_row p)
          ≡ (prediction_fits p && prediction_valid p))
      × (takes (find_table "audit_log" head.tables) (audit_row a)
          ≡ (audit_fits a && action_valid a))
unfolding users batches casbin_rule audit_log documents predictions
upgrade_head-takes u b d p a = (
  ap (λ ts. takes (find_table "users" ts) (user_row u)) tables_at_head ∙ takes-user u,
  ap (λ ts. takes (find_table "batches" ts) (batch_row b)) tables_at_head ∙ takes-batch b,
  ap (λ ts. takes (find_table "documents" ts) (document_row d)) tables_at_head ∙ takes-document d,
  ap (λ ts. takes (find_table "predictions" ts) (prediction_row p)) tables_at_head
      ∙ takes-prediction p,
  ap (λ ts. takes (find_table "audit_log" ts) (audit_row a)) tables_at_head ∙ takes-audit a,
)
