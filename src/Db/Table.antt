-- ===== src/Db/Table.antt =====
-- A table is the list of its rows. What `get`, `where`, `update`, `delete` and `count` of a
-- statement do to it.
use document_classifier.Prelude.{ℕ, ◌+◌, Bool, Option, none, some, List, [], ◌∷◌, if◌then◌else◌}

module _ {ℓ} {Row : Type ℓ} where
  -- The first row that fits: by the primary key, the only one.
  unfoldable pub find? : (Row → Bool) → List Row → Option Row
  find? p [] = none
  find? p (r ∷ rs) = if p r then some r else find? p rs

  -- UPDATE … WHERE p
  unfoldable pub modify_where : (Row → Bool) → (Row → Row) → List Row → List Row
  modify_where p f [] = []
  modify_where p f (r ∷ rs) = (if p r then f r else r) ∷ modify_where p f rs

  -- DELETE … WHERE p
  unfoldable pub remove_where : (Row → Bool) → List Row → List Row
  remove_where p [] = []
  remove_where p (r ∷ rs) = let rest = remove_where p rs in if p r then rest else r ∷ rest

  -- SELECT … WHERE p
  unfoldable pub select_where : (Row → Bool) → List Row → List Row
  select_where p [] = []
  select_where p (r ∷ rs) = let rest = select_where p rs in if p r then r ∷ rest else rest

  -- SELECT count(*) … WHERE p
  unfoldable pub count_where : (Row → Bool) → List Row → ℕ
  count_where p [] = 0
  count_where p (r ∷ rs) = (if p r then 1 else 0) + count_where p rs

  -- INSERT
  unfoldable pub insert_row : Row → List Row → List Row
  insert_row r [] = r ∷ []
  insert_row r (x ∷ rs) = x ∷ insert_row r rs
