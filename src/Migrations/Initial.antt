-- ===== src/Migrations/Initial.antt =====
-- backend/alembic/versions/0001_initial.py
use document_classifier.Prelude.{member, true, false, none, some, List, [], ◌∷◌, String}
use document_classifier.Exec.{Exec, ◌>>◌}
use document_classifier.Migrations.Catalog.{
  Kind, uuid, json, boolean, integer, real, timestamp, text, Column, check_in, check_unit,
  primary_key, unique, foreign_key, Table, Rule, Catalog, create_extension, create_table,
  drop_table, create_index, drop_index, insert_rules,
}

abbrev required : String → Kind → Column
required name kind = record { name = name; kind = kind; nullable = false; server_default = none }

abbrev defaulted : String → Kind → String → Column
defaulted name kind value = record {
  name = name;
  kind = kind;
  nullable = false;
  server_default = some value;
}

abbrev pub optional : String → Kind → Column
optional name kind = record { name = name; kind = kind; nullable = true; server_default = none }

abbrev id_column : Column
id_column = defaulted "id" uuid "gen_random_uuid()"

abbrev created_at : Column
created_at = defaulted "created_at" timestamp "now()"

unfoldable pub users : Table
users = record {
  name = "users";
  columns =
      id_column
      ∷ required "email" (text 255)
      ∷ required "hashed_password" (text 255)
      ∷ required "role" (text 20)
      ∷ defaulted "is_active" boolean "true"
      ∷ created_at
      ∷ [];
  constraints =
      check_in "ck_users_role_valid" "role" ("admin" ∷ "reviewer" ∷ "auditor" ∷ [])
      ∷ primary_key ("id" ∷ [])
      ∷ unique ("email" ∷ [])
      ∷ [];
}

unfoldable pub batches : Table
batches = record {
  name = "batches";
  columns =
      id_column
      ∷ required "status" (text 20)
      ∷ defaulted "document_count" integer "0"
      ∷ created_at
      ∷ [];
  constraints =
      check_in "ck_batches_status_valid" "status"
        ("pending" ∷ "processing" ∷ "complete" ∷ "failed" ∷ [])
      ∷ primary_key ("id" ∷ [])
      ∷ [];
}

unfoldable pub casbin_rule : Table
casbin_rule = record {
  name = "casbin_rule";
  columns =
      required "id" integer
      ∷ required "ptype" (text 12)
      ∷ optional "v0" (text 128)
      ∷ optional "v1" (text 128)
      ∷ optional "v2" (text 128)
      ∷ optional "v3" (text 128)
      ∷ optional "v4" (text 128)
      ∷ optional "v5" (text 128)
      ∷ [];
  constraints = primary_key ("id" ∷ []) ∷ [];
}

unfoldable pub audit_log : Table
audit_log = record {
  name = "audit_log";
  columns =
      id_column
      ∷ optional "actor_id" uuid
      ∷ required "action" (text 20)
      ∷ required "target" (text 255)
      ∷ optional "metadata" json
      ∷ defaulted "timestamp" timestamp "now()"
      ∷ [];
  constraints =
      check_in "ck_audit_log_action_valid" "action" ("role_change" ∷ "relabel" ∷ "batch_state" ∷ [])
      ∷ foreign_key "actor_id" "users.id" "SET NULL"
      ∷ primary_key ("id" ∷ [])
      ∷ [];
}

unfoldable pub documents : Table
documents = record {
  name = "documents";
  columns = id_column ∷ required "batch_id" uuid ∷ required "blob_key" (text 500) ∷ created_at ∷ [];
  constraints = foreign_key "batch_id" "batches.id" "CASCADE" ∷ primary_key ("id" ∷ []) ∷ [];
}

abbrev pub labels : List String
labels =
    "letter" ∷ "form" ∷ "email" ∷ "handwritten" ∷ "advertisement" ∷ "scientific_report"
    ∷ "scientific_publication" ∷ "specification" ∷ "file_folder" ∷ "news_article" ∷ "budget"
    ∷ "invoice" ∷ "presentation" ∷ "questionnaire" ∷ "resume" ∷ "memo" ∷ []

unfoldable pub predictions : Table
predictions = record {
  name = "predictions";
  columns =
      id_column
      ∷ required "document_id" uuid
      ∷ required "batch_id" uuid
      ∷ required "label" (text 50)
      ∷ required "top1_confidence" real
      ∷ required "top5" json
      ∷ optional "overlay_url" (text 500)
      ∷ required "model_version" (text 50)
      ∷ created_at
      ∷ [];
  constraints =
      check_in "ck_predictions_label_valid" "label" labels
      ∷ check_unit "ck_predictions_top1_confidence_range" "top1_confidence"
      ∷ foreign_key "batch_id" "batches.id" "CASCADE"
      ∷ foreign_key "document_id" "documents.id" "CASCADE"
      ∷ primary_key ("id" ∷ [])
      ∷ unique ("batch_id" ∷ "document_id" ∷ [])
      ∷ [];
}

unfoldable pub initial_rules : List Rule
initial_rules =
    ("p", "admin", "invite_user", "allow")
    ∷ ("p", "admin", "toggle_role", "allow")
    ∷ ("p", "admin", "read_audit", "allow")
    ∷ ("p", "admin", "read_batch", "allow")
    ∷ ("p", "admin", "relabel_prediction", "allow")
    ∷ ("p", "reviewer", "read_batch", "allow")
    ∷ ("p", "reviewer", "relabel_prediction", "allow")
    ∷ ("p", "auditor", "read_batch", "allow")
    ∷ ("p", "auditor", "read_audit", "allow")
    ∷ []

unfoldable pub upgrade_0001 : Exec Catalog (Unit {0})
unfolding create_extension create_table create_index insert_rules users batches casbin_rule
    audit_log documents predictions initial_rules member
upgrade_0001 = do
  create_extension "pgcrypto"
  create_table users
  create_table batches
  create_table casbin_rule
  create_table audit_log
  create_index "ix_audit_log_actor_id" "audit_log" "actor_id"
  create_index "ix_audit_log_timestamp" "audit_log" "timestamp"
  create_table documents
  create_index "ix_documents_batch_id" "documents" "batch_id"
  create_table predictions
  create_index "ix_predictions_batch_id" "predictions" "batch_id"
  create_index "ix_predictions_created_at" "predictions" "created_at"
  insert_rules initial_rules

unfoldable pub downgrade_0001 : Exec Catalog (Unit {0})
unfolding drop_index drop_table
downgrade_0001 = do
  drop_index "ix_predictions_created_at"
  drop_index "ix_predictions_batch_id"
  drop_table "predictions"
  drop_index "ix_documents_batch_id"
  drop_table "documents"
  drop_index "ix_audit_log_timestamp"
  drop_index "ix_audit_log_actor_id"
  drop_table "audit_log"
  drop_table "casbin_rule"
  drop_table "batches"
  drop_table "users"
