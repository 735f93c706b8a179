-- ===== src/Tests/Schema.antt =====
-- Runs of the migrations.
use document_classifier.Prelude.{
  ◌≡◌, refl, true, ◌&&◌, none, some, List, [], ◌∷◌, ◌++◌, String, str_eq, if◌then◌else◌, member,
}
use document_classifier.Exec.{ok, err, integrity_error, ◌>>◌}
use document_classifier.Db.{
  Batch, Document, Prediction, AuditLog, user_fits, role_valid, status_valid, document_fits,
  prediction_fits, prediction_valid, audit_fits, action_valid,
}
use document_classifier.Api.Deps.{policy, allows}
use document_classifier.Migrations.Catalog.{find_table, without, all_members, in_transaction}
use document_classifier.Migrations.Later.{
  actions_0001, actions_0002, rules_0004, upgrade_0004, downgrade_0004, downgrade_base,
}
use document_classifier.Migrations.Rows.{
  takes, head, user_row, batch_row, document_row, prediction_row, audit_row,
}
use document_classifier.Migrations.Models.{upgrade_head-takes}
use document_classifier.Migrations.Policy.{policies, upgrade_head_policy}
use document_classifier.Migrations.Versions.{filled}
use document_classifier.Migrations.Downgrade.{downgrade_base_lem}
use document_classifier.Migrations.Again.{upgrade_0004-downgrade_0004}
use document_classifier.Tests.Data.{admin_row}

abbrev batch : Batch
batch = record { id = 3; status = "archived"; document_count = 1; created_at = 1 }

abbrev document : Document
document = record { id = 4; batch_id = 3; blob_key = "documents/3/4.tif"; created_at = 1 }

abbrev prediction : Prediction
prediction = record {
  id = 5;
  document_id = 4;
  batch_id = 3;
  label = "memo";
  top1_confidence = 6_000_000_000;
  top5 = [];
  overlay_url = none;
  model_version = "v1";
  comment = some "checked";
  comment_color = none;
  latency_ms = none;
  document_name = none;
  created_at = 1;
}

abbrev audit : AuditLog
audit = record {
  id = 6;
  actor_id = none;
  action = "rename_document";
  target = "4";
  metadata = none;
  timestamp = 1;
}

upgrade_head-takes_example :
    (takes (find_table "users" head.tables) (user_row admin_row)
      ≡ (user_fits admin_row && role_valid admin_row))
    × (takes (find_table "batches" head.tables) (batch_row batch) ≡ status_valid batch)
    × (takes (find_table "documents" head.tables) (document_row document) ≡ document_fits document)
    × (takes (find_table "predictions" head.tables) (prediction_row prediction)
        ≡ (prediction_fits prediction && prediction_valid prediction))
    × (takes (find_table "audit_log" head.tables) (audit_row audit)
        ≡ (audit_fits audit && action_valid audit))
upgrade_head-takes_example = upgrade_head-takes admin_row batch document prediction audit

upgrade_head_policy_example :
    allows (policies head.rules) "auditor" "add_comment" "allow"
    ≡ allows policy "auditor" "add_comment" "allow"
upgrade_head_policy_example = upgrade_head_policy "auditor" "add_comment" "allow"

-- Somebody has commented on a document that has a name.
abbrev commented_log : String → String → List String
commented_log table column =
    if str_eq column "action"
    then "add_comment" ∷ []
    else if str_eq column "document_name"
    then "May report" ∷ []
    else []

downgrade_base_lem_example :
    (let known = all_members (commented_log "audit_log" "action") actions_0001 in
      let (r, c) = downgrade_base (filled commented_log) in
      (r ≡ (if known then ok tt else err integrity_error))
      × (c.tables ≡ (if known then [] else head.tables))
      × (c.indexes ≡ (if known then [] else head.indexes))
      × (c.rules ≡ (if known then [] else head.rules)))
downgrade_base_lem_example = downgrade_base_lem commented_log

comment_allowed : all_members (commented_log "audit_log" "action") actions_0002 ≡ true
unfolding all_members member
comment_allowed = refl

upgrade_0004-downgrade_0004_example :
    (do in_transaction downgrade_0004; in_transaction upgrade_0004) (filled commented_log) ≡ (
      ok tt,
      record (filled (without "predictions" "document_name" commented_log)) {
        rules = head.rules ++ rules_0004;
      },
    )
upgrade_0004-downgrade_0004_example = upgrade_0004-downgrade_0004 commented_log comment_allowed

-- The downgrade after a comment.
comment_stops : (downgrade_base (filled commented_log)).0 ≡ err integrity_error
unfolding all_members member
comment_stops = (downgrade_base_lem commented_log).0
