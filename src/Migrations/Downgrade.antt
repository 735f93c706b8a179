-- ===== src/Migrations/Downgrade.antt =====
-- The way back: `alembic downgrade base` of a database that has rows in its log.
use document_classifier.Prelude.{
  ◌≡◌, refl, ap, ◌∙◌, true, false, Bool-cases, inl, inr, List, [], String, if◌then◌else◌,
}
use document_classifier.Exec.{Exec, ok, err, integrity_error, ◌>>◌}
use document_classifier.Migrations.Catalog.{Catalog, Rule, all_members, without}
use document_classifier.Migrations.Later.{
  actions_0001, actions_0002, actions_0004, downgrade_0004, downgrade_0003, downgrade_0002,
  upgrade_head, downgrade_base,
}
use document_classifier.Migrations.Initial.{upgrade_0001, downgrade_0001}
use document_classifier.Migrations.Rows.{head}
use document_classifier.Migrations.Versions.{
  filled, version, commented, timed, named, in_transaction-ok, in_transaction-err, >>-ok, >>-err,
  older, all_members_trans, filled_lem,
}

-- What is left of the texts of the rows when a revision is taken back.
abbrev pub unnamed : (String → String → List String) → String → String → List String
unnamed values = without "predictions" "document_name" values

abbrev untimed : (String → String → List String) → String → String → List String
untimed values = without "predictions" "latency_ms" values

abbrev uncommented : (String → String → List String) → String → String → List String
uncommented values = without "predictions" "comment" (without "predictions" "comment_color" values)

abbrev left : (String → String → List String) → String → String → List String
left values = uncommented (untimed (unnamed values))

module _ (values : String → String → List String) where
  module _ (rules : List Rule) where
    pub step_0004 :
        all_members (values "audit_log" "action") actions_0002 ≡ true
        → downgrade_0004 (version actions_0004 named rules values)
          ≡ (ok tt, version actions_0002 timed rules (unnamed values))
    unfolding downgrade_0004 upgrade_0001
    step_0004 h = rw h refl

    stop_0004 :
        all_members (values "audit_log" "action") actions_0002 ≡ false
        → (downgrade_0004 (version actions_0004 named rules values)).0 ≡ err integrity_error
    unfolding downgrade_0004 upgrade_0001
    stop_0004 h = rw h refl

    step_0003 :
        downgrade_0003 (version actions_0002 timed rules values)
        ≡ (ok tt, version actions_0002 commented rules (untimed values))
    unfolding downgrade_0003 upgrade_0001
    step_0003 = refl

    step_0002 :
        all_members (values "audit_log" "action") actions_0001 ≡ true
        → downgrade_0002 (version actions_0002 commented rules values)
          ≡ (ok tt, version actions_0001 [] rules (uncommented values))
    unfolding downgrade_0002 upgrade_0001
    step_0002 h = rw h refl

    stop_0002 :
        all_members (values "audit_log" "action") actions_0001 ≡ false
        → (downgrade_0002 (version actions_0002 commented rules values)).0 ≡ err integrity_error
    unfolding downgrade_0002 upgrade_0001
    stop_0002 h = rw h refl

    step_0001 :
        (let (r, c) = downgrade_0001 (version actions_0001 [] rules values) in
          (r ≡ ok tt) × (c.tables ≡ []) × (c.indexes ≡ []) × (c.rules ≡ []))
    unfolding downgrade_0001 upgrade_head
    step_0001 = (refl, refl, refl, refl)

module _ (values : String → String → List String)
    (known : all_members (values "audit_log" "action") actions_0002 ≡ true) where
  -- The revisions 0004 and 0003 are taken back.
  two_back :
      (k : Exec Catalog (Unit {0}))
      → (do downgrade_0004; downgrade_0003; k) (filled values)
        ≡ k (version actions_0002 commented head.rules (untimed (unnamed values)))
  two_back k =
      ap (do downgrade_0004; downgrade_0003; k) (filled_lem values)
      ∙ >>-ok downgrade_0004 (downgrade_0003 >> k) _ _ (step_0004 values head.rules known)
      ∙ >>-ok downgrade_0003 k _ _ (step_0003 (unnamed values) head.rules)

  all_back :
      all_members (values "audit_log" "action") actions_0001 ≡ true
      → (do downgrade_0004; downgrade_0003; downgrade_0002; downgrade_0001) (filled values)
        ≡ downgrade_0001 (version actions_0001 [] head.rules (left values))
  all_back h =
      two_back (downgrade_0002 >> downgrade_0001)
      ∙ >>-ok downgrade_0002 downgrade_0001 _ _ (step_0002 (untimed (unnamed values)) head.rules h)

  stopped_at_0002 :
      all_members (values "audit_log" "action") actions_0001 ≡ false
      → ((do downgrade_0004; downgrade_0003; downgrade_0002; downgrade_0001) (filled values)).0
        ≡ err integrity_error
  stopped_at_0002 h =
      ap (λ p. p.0) (two_back (downgrade_0002 >> downgrade_0001))
      ∙ >>-err downgrade_0002 downgrade_0001 _ _ (stop_0002 (untimed (unnamed values)) head.rules h)

stopped_at_0004 :
    (values : String → String → List String)
    → all_members (values "audit_log" "action") actions_0002 ≡ false
    → ((do downgrade_0004; downgrade_0003; downgrade_0002; downgrade_0001) (filled values)).0
      ≡ err integrity_error
stopped_at_0004 values h =
    ap (λ c. ((do downgrade_0004; downgrade_0003; downgrade_0002; downgrade_0001) c).0)
      (filled_lem values)
    ∙ >>-err downgrade_0004 (downgrade_0003 >> (downgrade_0002 >> downgrade_0001)) _ _
        (stop_0004 values head.rules h)

down_passes :
    (values : String → String → List String)
    → all_members (values "audit_log" "action") actions_0001 ≡ true
    → downgrade_base (filled values)
      ≡ (ok tt, (downgrade_0001 (version actions_0001 [] head.rules (left values))).1)
unfolding downgrade_base
down_passes values h =
    let last = downgrade_0001 (version actions_0001 [] head.rules (left values)) in
    let known : all_members (values "audit_log" "action") actions_0002 ≡ true =
      all_members_trans (values "audit_log" "action") actions_0001 actions_0002 older h in
    in_transaction-ok (do downgrade_0004; downgrade_0003; downgrade_0002; downgrade_0001)
      (filled values) last.1
      (all_back values known h ∙ ap (λ r. (r, last.1)) (step_0001 (left values) head.rules).0)

down_fails :
    (values : String → String → List String)
    → all_members (values "audit_log" "action") actions_0001 ≡ false
    → downgrade_base (filled values) ≡ (err integrity_error, filled values)
unfolding downgrade_base
down_fails values h =
    in_transaction-err (do downgrade_0004; downgrade_0003; downgrade_0002; downgrade_0001)
      (filled values) integrity_error
      (elim (Bool-cases (all_members (values "audit_log" "action") actions_0002)) [
        | inl known ↦ stopped_at_0002 values known h
        | inr unknown ↦ stopped_at_0004 values unknown
      ])

-- `alembic downgrade base` of a migrated database ends without an error exactly if its log has no other
-- actions than those of the first revision: then no table, no index and no rule is left. Otherwise it
-- raises an IntegrityError, and tables, indexes and rules are as before.
pub downgrade_base_lem :
    (values : String → String → List String)
    → (let known = all_members (values "audit_log" "action") actions_0001 in
        let (r, c) = downgrade_base (filled values) in
        (r ≡ (if known then ok tt else err integrity_error))
        × (c.tables ≡ (if known then [] else head.tables))
        × (c.indexes ≡ (if known then [] else head.indexes))
        × (c.rules ≡ (if known then [] else head.rules)))
downgrade_base_lem values =
    elim (Bool-cases (all_members (values "audit_log" "action") actions_0001)) [
      | inl h ↦
          let e = down_passes values h in
          let last = step_0001 (left values) head.rules in rw (e, h) (refl, last.1, last.2, last.3)
      | inr h ↦ rw (down_fails values h, h) (refl, refl, refl, refl)
    ]
