-- ===== src/Migrations/Again.antt =====
-- The last revision taken back and applied again.
use document_classifier.Prelude.{◌≡◌, refl, sym, ap, ◌∙◌, true, List, ◌++◌, String}
use document_classifier.Exec.{ok, ◌>>◌}
use document_classifier.Migrations.Catalog.{
  Rule, text, all_members, add_column, without, insert_rules, in_transaction,
}
use document_classifier.Migrations.Later.{
  actions_0002, actions_0004, rules_0004, replace_actions, upgrade_0004, downgrade_0004,
}
use document_classifier.Migrations.Initial.{upgrade_0001, optional}
use document_classifier.Migrations.Rows.{head}
use document_classifier.Migrations.Versions.{
  filled, version, timed, named, in_transaction-ok, >>-ok, later, all_members_trans, filled_lem,
}
use document_classifier.Migrations.Downgrade.{step_0004, unnamed}

module _ (values : String → String → List String) (rules : List Rule) where
  added_name :
      add_column "predictions"
        (optional "document_name" (text 255))
        (version actions_0002 timed rules values)
      ≡ (ok tt, version actions_0002 named rules values)
  unfolding add_column upgrade_0001
  added_name = refl

  replaced_actions :
      all_members (values "audit_log" "action") actions_0004 ≡ true
      → replace_actions actions_0004 (version actions_0002 named rules values)
        ≡ (ok tt, version actions_0004 named rules values)
  unfolding replace_actions upgrade_0001
  replaced_actions h = rw h refl

  again_0004 :
      all_members (values "audit_log" "action") actions_0004 ≡ true
      → upgrade_0004 (version actions_0002 timed rules values)
        ≡ (ok tt, version actions_0004 named (rules ++ rules_0004) values)
  unfolding upgrade_0004
  again_0004 h =
      >>-ok (add_column "predictions" (optional "document_name" (text 255)))
        (replace_actions actions_0004 >> insert_rules rules_0004)
        (version actions_0002 timed rules values) (version actions_0002 named rules values)
        added_name
      ∙ >>-ok (replace_actions actions_0004) (insert_rules rules_0004)
          (version actions_0002 named rules values) (version actions_0004 named rules values)
          (replaced_actions h)

-- Where the log has no `rename_document`, and no action that the checks do not know, the last revision of
-- a migrated database can be taken back and applied again: no row has the name of a
-- document any more, the two rules of the revision are there once more, and all else is as before.
pub upgrade_0004-downgrade_0004 :
    (values : String → String → List String)
    → all_members (values "audit_log" "action") actions_0002 ≡ true
    → (do in_transaction downgrade_0004; in_transaction upgrade_0004) (filled values) ≡ (
      ok tt,
      record (filled (without "predictions" "document_name" values)) {
        rules = head.rules ++ rules_0004;
      },
    )
upgrade_0004-downgrade_0004 values known =
    let wider : all_members (values "audit_log" "action") actions_0004 ≡ true =
      all_members_trans (values "audit_log" "action") actions_0002 actions_0004 later known in
    >>-ok (in_transaction downgrade_0004) (in_transaction upgrade_0004) (filled values) _ (
      ap (in_transaction downgrade_0004) (filled_lem values)
      ∙ in_transaction-ok downgrade_0004 _ _ (step_0004 values head.rules known))
    ∙ in_transaction-ok upgrade_0004 _ _ (again_0004 (unnamed values) head.rules wider)
    ∙ ap (λ c. (ok tt, record c { rules = head.rules ++ rules_0004 }))
        (sym (filled_lem (unnamed values)))
