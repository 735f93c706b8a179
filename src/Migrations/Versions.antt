-- ===== src/Migrations/Versions.antt =====
-- The database between two revisions, and transactions that succeed or fail.
use document_classifier.Prelude.{
  member, ◌≡◌, refl, ap, true, Bool-cases, inl, inr, List, [], ◌∷◌, ◌++◌, String, str_eq, eq_iff,
  arith,
}
use document_classifier.Exec.{Exec, Error, Result, ok, err, ◌>>◌}
use document_classifier.Migrations.Catalog.{
  Catalog, Column, Rule, text, real, check_in, primary_key, foreign_key, all_members,
  in_transaction,
}
use document_classifier.Migrations.Later.{actions_0001, actions_0002, actions_0004, upgrade_head}
use document_classifier.Migrations.Initial.{
  users, batches, casbin_rule, audit_log, documents, predictions, optional,
}
use document_classifier.Migrations.Rows.{head}

-- A migrated database with rows.
abbrev pub filled : (String → String → List String) → Catalog
filled values = record head { values = values }

member-all_members :
    (s : String) (xs ys : List String)
    → all_members xs ys ≡ true
    → member s xs ≡ true
    → member s ys ≡ true
unfolding member all_members
member-all_members s [] ys h e = cc
member-all_members s (x ∷ xs) ys h e = elim (Bool-cases (str_eq s x)) [
  | inl same ↦ rw ((eq_iff s x).0 same) (ground arith)
  | inr other ↦ member-all_members s xs ys (ground arith) (ground arith)
]

pub all_members_trans :
    (ss xs ys : List String)
    → all_members xs ys ≡ true
    → all_members ss xs ≡ true
    → all_members ss ys ≡ true
unfolding all_members
all_members_trans [] xs ys h e = refl
all_members_trans (s ∷ ss) xs ys h e =
    ground (arith, member-all_members s xs ys h, all_members_trans ss xs ys h)

-- The database between two revisions: the actions that its log allows, the columns that are added to its
-- predictions, its rules and its rows.
abbrev pub version :
    List String → List Column → List Rule → (String → String → List String) → Catalog
version actions columns rules values = record {
  extensions = "pgcrypto" ∷ [];
  tables =
      users
      ∷ batches
      ∷ casbin_rule
      ∷ record audit_log {
        constraints =
            foreign_key "actor_id" "users.id" "SET NULL"
            ∷ primary_key ("id" ∷ [])
            ∷ check_in "ck_audit_log_action_valid" "action" actions
            ∷ [];
      }
      ∷ documents
      ∷ record predictions { columns = predictions.columns ++ columns }
      ∷ [];
  indexes = head.indexes;
  rules = rules;
  values = values;
}

abbrev pub commented : List Column
commented = optional "comment" (text 2000) ∷ optional "comment_color" (text 20) ∷ []

abbrev pub timed : List Column
timed = commented ++ optional "latency_ms" real ∷ []

abbrev pub named : List Column
named = timed ++ optional "document_name" (text 255) ∷ []

module _ (values : String → String → List String) where
  pub filled_lem : filled values ≡ version actions_0004 named head.rules values
  unfolding upgrade_head
  filled_lem = refl

pub in_transaction-ok :
    (m : Exec Catalog (Unit {0})) (c c' : Catalog)
    → m c ≡ (ok tt, c')
    → in_transaction m c ≡ (ok tt, c')
unfolding in_transaction
in_transaction-ok m c c' h =
    ap (λ (p : Result (Unit {0}) × Catalog). elim p.0 [ ok _ ↦ (ok tt, p.1) | err e ↦ (err e, c) ])
      h

pub in_transaction-err :
    (m : Exec Catalog (Unit {0})) (c : Catalog) (e : Error)
    → (m c).0 ≡ err e
    → in_transaction m c ≡ (err e, c)
unfolding in_transaction
in_transaction-err m c e h = ap (λ r. elim r [ ok _ ↦ (ok tt, (m c).1) | err e ↦ (err e, c) ]) h

pub >>-ok : (m k : Exec Catalog (Unit {0})) (c c' : Catalog) → m c ≡ (ok tt, c') → (m >> k) c ≡ k c'
>>-ok m k c c' h =
    ap (λ (p : Result (Unit {0}) × Catalog). elim p.0 [ ok _ ↦ k p.1 | err e ↦ (err e, p.1) ]) h

pub >>-err :
    (m k : Exec Catalog (Unit {0})) (c : Catalog) (e : Error)
    → (m c).0 ≡ err e
    → ((m >> k) c).0 ≡ err e
>>-err m k c e h = ground (arith, h)

pub older : all_members actions_0001 actions_0002 ≡ true
unfolding member all_members
older = refl

pub later : all_members actions_0002 actions_0004 ≡ true
unfolding member all_members
later = refl
