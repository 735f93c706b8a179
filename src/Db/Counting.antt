-- ===== src/Db/Counting.antt =====
-- How many rows fit after an INSERT, an UPDATE and a DELETE.
use document_classifier.Prelude.{
  ◌+◌, ◌≤◌, ◌≡◌, refl, Bool, true, false, none, some, List, [], ◌∷◌, arith, length, if◌then◌else◌,
}
use document_classifier.Db.Table.{find?, modify_where, remove_where, count_where, insert_row}

module _ {ℓ} {Row : Type ℓ} where
  pub count_where-insert_row :
      (p : Row → Bool) (r : Row) (rs : List Row)
      → count_where p (insert_row r rs) ≡ count_where p rs + (if p r then 1 else 0)
  unfolding count_where insert_row
  count_where-insert_row p r [] = ground arith
  count_where-insert_row p r (x ∷ rs) = ground (arith, count_where-insert_row p r rs)

  -- A row is found exactly when the count is positive.
  pub count_where-pos_of_find :
      (p : Row → Bool) (rs : List Row) (r : Row) → find? p rs ≡ some r → 1 ≤ count_where p rs
  unfolding find? count_where
  count_where-pos_of_find p [] r h = ground arith
  count_where-pos_of_find p (x ∷ rs) r h = ground (arith, count_where-pos_of_find p rs r)

  pub count_where-zero_of_find :
      (p : Row → Bool) (rs : List Row) → find? p rs ≡ none → count_where p rs ≡ 0
  unfolding find? count_where
  count_where-zero_of_find p [] h = refl
  count_where-zero_of_find p (x ∷ rs) h = ground (arith, count_where-zero_of_find p rs)

  -- An update that no test of `q` can tell keeps the count of `q`.
  pub count_where-modify_where :
      (p q : Row → Bool) (f : Row → Row) (rs : List Row)
      → ((r : Row) → q (f r) ≡ q r)
      → count_where q (modify_where p f rs) ≡ count_where q rs
  unfolding count_where modify_where
  count_where-modify_where p q f [] h = refl
  count_where-modify_where p q f (x ∷ rs) h =
      ground (arith, h x, count_where-modify_where p q f rs h)

  pub length-modify_where :
      (p : Row → Bool) (f : Row → Row) (rs : List Row) → length (modify_where p f rs) ≡ length rs
  unfolding modify_where
  length-modify_where p f [] = refl
  length-modify_where p f (x ∷ rs) = omega (arith, length-modify_where p f rs)

  -- An update of the rows of `p` takes at most those away from another count.
  pub count_where-le_modify_where :
      (p q : Row → Bool) (f : Row → Row) (rs : List Row)
      → count_where q rs ≤ count_where q (modify_where p f rs) + count_where p rs
  unfolding count_where modify_where
  count_where-le_modify_where p q f [] = omega arith
  count_where-le_modify_where p q f (x ∷ rs) = ground (arith, count_where-le_modify_where p q f rs)

  -- An update that only makes rows fit takes none away.
  pub count_where-le_modify_where_grow :
      (p q : Row → Bool) (f : Row → Row) (rs : List Row)
      → ((x : Row) → q (f x) ≡ true)
      → count_where q rs ≤ count_where q (modify_where p f rs)
  unfolding count_where modify_where
  count_where-le_modify_where_grow p q f [] h = omega arith
  count_where-le_modify_where_grow p q f (x ∷ rs) h =
      ground (arith, h x, count_where-le_modify_where_grow p q f rs h)

  pub count_where-le_remove_where :
      (p q : Row → Bool) (rs : List Row)
      → count_where q rs ≤ count_where q (remove_where p rs) + count_where p rs
  unfolding count_where remove_where
  count_where-le_remove_where p q [] = omega arith
  count_where-le_remove_where p q (x ∷ rs) = ground (arith, count_where-le_remove_where p q rs)

  pub count_where-remove_where_le :
      (p q : Row → Bool) (rs : List Row) → count_where q (remove_where p rs) ≤ count_where q rs
  unfolding count_where remove_where
  count_where-remove_where_le p q [] = omega arith
  count_where-remove_where_le p q (x ∷ rs) = ground (arith, count_where-remove_where_le p q rs)

  pub remove_where-none :
      (p : Row → Bool) (rs : List Row) → count_where p rs ≡ 0 → remove_where p rs ≡ rs
  unfolding count_where remove_where
  remove_where-none p [] h = refl
  remove_where-none p (x ∷ rs) h = ground (arith, remove_where-none p rs)

  pub modify_where-none :
      (p : Row → Bool) (f : Row → Row) (rs : List Row)
      → count_where p rs ≡ 0
      → modify_where p f rs ≡ rs
  unfolding count_where modify_where
  modify_where-none p f [] h = refl
  modify_where-none p f (x ∷ rs) h = ground (arith, modify_where-none p f rs)

  -- With one row of `p` at most, and that one none of `q`, a change of `p` keeps the rows of `q`.
  pub count_where-remove_where_one :
      (p q : Row → Bool) (rs : List Row) (r : Row)
      → count_where p rs ≤ 1
      → find? p rs ≡ some r
      → q r ≡ false
      → count_where q (remove_where p rs) ≡ count_where q rs
  unfolding count_where remove_where find?
  count_where-remove_where_one p q [] r one e n = refl
  count_where-remove_where_one p q (x ∷ rs) r one e n =
      ground (arith, count_where-remove_where_one p q rs r, remove_where-none p rs)

  -- A row found by `p` that fits `q` counts for `q`.
  pub count_where-pos_of_found :
      (p q : Row → Bool) (rs : List Row) (r : Row)
      → find? p rs ≡ some r
      → q r ≡ true
      → 1 ≤ count_where q rs
  unfolding find? count_where
  count_where-pos_of_found p q [] r h k = ground arith
  count_where-pos_of_found p q (x ∷ rs) r h k = ground (arith, count_where-pos_of_found p q rs r)

  -- With one row of `p` at most, which the update takes out of `q`, one less counts for `q`.
  pub count_where-modify_where_one :
      (p q : Row → Bool) (f : Row → Row) (rs : List Row) (r : Row)
      → count_where p rs ≤ 1
      → find? p rs ≡ some r
      → q r ≡ true
      → q (f r) ≡ false
      → count_where q (modify_where p f rs) + 1 ≡ count_where q rs
  unfolding count_where modify_where find?
  count_where-modify_where_one p q f [] r one e k n = ground arith
  count_where-modify_where_one p q f (x ∷ rs) r one e k n =
      ground (arith, count_where-modify_where_one p q f rs r, modify_where-none p f rs)
