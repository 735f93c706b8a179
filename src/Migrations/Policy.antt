-- ===== src/Migrations/Policy.antt =====
-- The policy that the migrations write to the database, and the policy of
-- backend/app/infra/casbin/policy.csv.
use document_classifier.Prelude.{
  ◌≡◌, refl, sym, ◌∙◌, Bool, true, ◌&&◌, Bool-cases, inl, inr, List, [], ◌∷◌, String, str_eq,
  eq_iff, arith, if◌then◌else◌,
}
use document_classifier.Api.Deps.{policy, allows}
use document_classifier.Migrations.Catalog.{Rule}
use document_classifier.Migrations.Later.{upgrade_head}
use document_classifier.Migrations.Rows.{head}

-- The rows of `casbin_rule` that are policies, as the enforcer reads them.
abbrev pub policies : List Rule → List (String × String × String)
policies [] = []
policies ((ptype, sub, obj, act) ∷ rules) =
    let rest = policies rules in if str_eq ptype "p" then (sub, obj, act) ∷ rest else rest

-- Every row of the first policy is allowed by the second.
abbrev covers : List (String × String × String) → List (String × String × String) → Bool
covers rows [] = true
covers rows ((s, o, a) ∷ others) = allows rows s o a && covers rows others

allows-covers :
    (rows others : List (String × String × String)) (sub obj act : String)
    → covers rows others ≡ true
    → allows others sub obj act ≡ true
    → allows rows sub obj act ≡ true
unfolding allows
allows-covers rows [] sub obj act h e = cc
allows-covers rows ((s, o, a) ∷ others) sub obj act h e =
    elim (Bool-cases (str_eq sub s && str_eq obj o && str_eq act a)) [
      | inl same ↦
          rw
            (
              (eq_iff sub s).0 (ground arith),
              (eq_iff obj o).0 (ground arith),
              (eq_iff act a).0 (ground arith),
            )
            (ground arith)
      | inr other ↦ allows-covers rows others sub obj act (ground arith) (ground arith)
    ]

covers-both :
    (xs ys : List (String × String × String)) (sub obj act : String)
    → covers xs ys ≡ true
    → covers ys xs ≡ true
    → allows xs sub obj act ≡ allows ys sub obj act
covers-both xs ys sub obj act h k = elim (Bool-cases (allows xs sub obj act)) [
  | inl e ↦ e ∙ sym (allows-covers ys xs sub obj act k e)
  | inr e ↦ ground (arith, allows-covers xs ys sub obj act h)
]

seeded-covers : covers (policies head.rules) policy ≡ true
unfolding upgrade_head policy allows
seeded-covers = refl

covers-seeded : covers policy (policies head.rules) ≡ true
unfolding upgrade_head allows policy
covers-seeded = refl

-- The rows that all migrations of an empty database leave in `casbin_rule` allow exactly what the policy
-- file allows.
pub upgrade_head_policy :
    (sub obj act : String) → allows (policies head.rules) sub obj act ≡ allows policy sub obj act
upgrade_head_policy sub obj act =
    covers-both (policies head.rules) policy sub obj act seeded-covers covers-seeded
