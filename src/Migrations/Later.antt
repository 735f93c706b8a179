-- ===== src/Migrations/Later.antt =====
-- backend/alembic/versions/0002_prediction_comments.py, 0003_prediction_latency.py and
-- 0004_document_name.py
use document_classifier.Prelude.{List, [], ◌∷◌, String}
use document_classifier.Exec.{Exec, ◌>>◌}
use document_classifier.Migrations.Catalog.{
  text, real, Rule, Catalog, add_column, drop_column, drop_constraint, create_check_constraint,
  all_members, insert_rules, in_transaction,
}
use document_classifier.Migrations.Initial.{optional, upgrade_0001, downgrade_0001}

-- The actions of the log at the three versions of its check.
abbrev pub actions_0001 : List String
actions_0001 = "role_change" ∷ "relabel" ∷ "batch_state" ∷ []

abbrev pub actions_0002 : List String
actions_0002 = "role_change" ∷ "relabel" ∷ "batch_state" ∷ "add_comment" ∷ "delete_user" ∷ []

abbrev pub actions_0004 : List String
actions_0004 =
    "role_change" ∷ "relabel" ∷ "batch_state" ∷ "add_comment" ∷ "delete_user" ∷ "rename_document"
    ∷ []

-- The check of the log's actions is dropped and made again.
unfoldable pub replace_actions : List String → Exec Catalog (Unit {0})
unfolding drop_constraint create_check_constraint all_members
replace_actions allowed = do
  drop_constraint "ck_audit_log_action_valid" "audit_log"
  create_check_constraint "ck_audit_log_action_valid" "audit_log" "action" allowed

unfoldable pub rules_0002 : List Rule
rules_0002 =
    ("p", "admin", "delete_user", "allow")
    ∷ ("p", "admin", "add_comment", "allow")
    ∷ ("p", "admin", "trigger_scan", "allow")
    ∷ ("p", "reviewer", "add_comment", "allow")
    ∷ ("p", "reviewer", "trigger_scan", "allow")
    ∷ []

unfoldable pub upgrade_0002 : Exec Catalog (Unit {0})
unfolding add_column replace_actions insert_rules rules_0002
upgrade_0002 = do
  add_column "predictions" (optional "comment" (text 2000))
  add_column "predictions" (optional "comment_color" (text 20))
  replace_actions actions_0002
  insert_rules rules_0002

unfoldable pub downgrade_0002 : Exec Catalog (Unit {0})
unfolding drop_column replace_actions
downgrade_0002 = do
  drop_column "predictions" "comment_color"
  drop_column "predictions" "comment"
  replace_actions actions_0001

unfoldable pub upgrade_0003 : Exec Catalog (Unit {0})
unfolding add_column
upgrade_0003 = add_column "predictions" (optional "latency_ms" real)

unfoldable pub downgrade_0003 : Exec Catalog (Unit {0})
unfolding drop_column
downgrade_0003 = drop_column "predictions" "latency_ms"

unfoldable pub rules_0004 : List Rule
rules_0004 =
    ("p", "admin", "rename_document", "allow") ∷ ("p", "reviewer", "rename_document", "allow") ∷ []

unfoldable pub upgrade_0004 : Exec Catalog (Unit {0})
unfolding add_column replace_actions insert_rules rules_0004
upgrade_0004 = do
  add_column "predictions" (optional "document_name" (text 255))
  replace_actions actions_0004
  insert_rules rules_0004

unfoldable pub downgrade_0004 : Exec Catalog (Unit {0})
unfolding drop_column replace_actions
downgrade_0004 = do drop_column "predictions" "document_name"; replace_actions actions_0002

-- `alembic upgrade head` and `alembic downgrade base`: backend/alembic/env.py runs all revisions in one
-- transaction.
unfoldable pub upgrade_head : Exec Catalog (Unit {0})
unfolding in_transaction upgrade_0001 upgrade_0002 upgrade_0003 upgrade_0004
upgrade_head = in_transaction (do upgrade_0001; upgrade_0002; upgrade_0003; upgrade_0004)

unfoldable pub downgrade_base : Exec Catalog (Unit {0})
downgrade_base = in_transaction (do downgrade_0004; downgrade_0003; downgrade_0002; downgrade_0001)
