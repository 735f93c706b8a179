-- ===== src/Db/Finding.antt =====
-- What is found in a table after an INSERT, an UPDATE and a DELETE.
use document_classifier.Prelude.{
  ◌≡◌, refl, Bool, true, false, none, some, List, [], ◌∷◌, arith, is_some,
}
use document_classifier.Db.Table.{find?, modify_where, remove_where, count_where, insert_row}

module _ {ℓ} {Row : Type ℓ} where
  pub find?-holds : (p : Row → Bool) (rs : List Row) (r : Row) → find? p rs ≡ some r → p r ≡ true
  unfolding find?
  find?-holds p [] r h = ground arith
  find?-holds p (x ∷ rs) r h = ground (arith, find?-holds p rs r)

  pub find?-insert_row :
      (p : Row → Bool) (r : Row) (rs : List Row)
      → find? p rs ≡ none
      → p r ≡ true
      → find? p (insert_row r rs) ≡ some r
  unfolding find? insert_row
  find?-insert_row p r [] h e = ground arith
  find?-insert_row p r (x ∷ rs) h e = ground (arith, find?-insert_row p r rs)

  pub find?-insert_row_old :
      (p : Row → Bool) (r x : Row) (rs : List Row)
      → find? p rs ≡ some x
      → find? p (insert_row r rs) ≡ some x
  unfolding find? insert_row
  find?-insert_row_old p r x [] h = ground arith
  find?-insert_row_old p r x (y ∷ rs) h = ground (arith, find?-insert_row_old p r x rs)

  pub find?-insert_row_ne :
      (p : Row → Bool) (r : Row) (rs : List Row)
      → p r ≡ false
      → find? p (insert_row r rs) ≡ find? p rs
  unfolding find? insert_row
  find?-insert_row_ne p r [] e = ground arith
  find?-insert_row_ne p r (x ∷ rs) e = ground (arith, find?-insert_row_ne p r rs)

  -- Where the key is kept by the update, the row found is the updated one.
  pub find?-modify_where_self :
      (p : Row → Bool) (f : Row → Row) (rs : List Row) (r : Row)
      → ((x : Row) → p (f x) ≡ p x)
      → find? p rs ≡ some r
      → find? p (modify_where p f rs) ≡ some (f r)
  unfolding find? modify_where
  find?-modify_where_self p f [] r h e = ground arith
  find?-modify_where_self p f (x ∷ rs) r h e =
      ground (arith, h x, find?-modify_where_self p f rs r h)

  -- An update of the rows of `p` is not seen by a `q` that no row of `p` meets.
  pub find?-modify_where_ne :
      (p q : Row → Bool) (f : Row → Row) (rs : List Row)
      → ((x : Row) → p x ≡ true → q x ≡ false)
      → ((x : Row) → q (f x) ≡ q x)
      → find? q (modify_where p f rs) ≡ find? q rs
  unfolding find? modify_where
  find?-modify_where_ne p q f [] h k = refl
  find?-modify_where_ne p q f (x ∷ rs) h k =
      ground (arith, h x, k x, find?-modify_where_ne p q f rs h k)

  pub find?-remove_where : (p : Row → Bool) (rs : List Row) → find? p (remove_where p rs) ≡ none
  unfolding find? remove_where
  find?-remove_where p [] = refl
  find?-remove_where p (x ∷ rs) = ground (arith, find?-remove_where p rs)

  pub find?-remove_where_ne :
      (p q : Row → Bool) (rs : List Row)
      → ((x : Row) → q x ≡ true → p x ≡ false)
      → find? q (remove_where p rs) ≡ find? q rs
  unfolding find? remove_where
  find?-remove_where_ne p q [] h = refl
  find?-remove_where_ne p q (x ∷ rs) h = ground (arith, h x, find?-remove_where_ne p q rs h)

  pub find?-none_of_count :
      (p : Row → Bool) (rs : List Row) → count_where p rs ≡ 0 → find? p rs ≡ none
  unfolding count_where find?
  find?-none_of_count p [] h = refl
  find?-none_of_count p (x ∷ rs) h = ground (arith, find?-none_of_count p rs)

  -- An update that keeps the key finds no more rows than before.
  pub find?-modify_where-none :
      (p q : Row → Bool) (f : Row → Row) (rs : List Row)
      → ((x : Row) → q (f x) ≡ q x)
      → find? q rs ≡ none
      → find? q (modify_where p f rs) ≡ none
  unfolding find? modify_where
  find?-modify_where-none p q f [] h e = refl
  find?-modify_where-none p q f (x ∷ rs) h e =
      ground (arith, h x, find?-modify_where-none p q f rs h)

  -- And no fewer.
  pub find?-modify_where_some :
      (p q : Row → Bool) (f : Row → Row) (rs : List Row)
      → ((x : Row) → q (f x) ≡ q x)
      → find? q (modify_where p f rs) ≡ none
      → find? q rs ≡ none
  unfolding find? modify_where
  find?-modify_where_some p q f [] h e = refl
  find?-modify_where_some p q f (x ∷ rs) h e =
      ground (arith, h x, find?-modify_where_some p q f rs h)

  -- The row that `q` finds is updated when it is one of `p`'s.
  pub find?-modify_where_hit :
      (p q : Row → Bool) (f : Row → Row) (rs : List Row) (r : Row)
      → ((x : Row) → q (f x) ≡ q x)
      → find? q rs ≡ some r
      → p r ≡ true
      → find? q (modify_where p f rs) ≡ some (f r)
  unfolding find? modify_where
  find?-modify_where_hit p q f [] r h e k = ground arith
  find?-modify_where_hit p q f (x ∷ rs) r h e k =
      ground (arith, h x, find?-modify_where_hit p q f rs r h)

  -- A row that was found is found after an insertion, and after an update that keeps the key.
  pub is_some-find?-insert_row :
      (p : Row → Bool) (r : Row) (rs : List Row)
      → is_some (find? p rs) ≡ true
      → is_some (find? p (insert_row r rs)) ≡ true
  unfolding find? insert_row
  is_some-find?-insert_row p r [] h = ground arith
  is_some-find?-insert_row p r (x ∷ rs) h = ground (arith, is_some-find?-insert_row p r rs)

  pub is_some-find?-modify_where :
      (p q : Row → Bool) (f : Row → Row) (rs : List Row)
      → ((x : Row) → q (f x) ≡ q x)
      → is_some (find? q rs) ≡ true
      → is_some (find? q (modify_where p f rs)) ≡ true
  unfolding find? modify_where
  is_some-find?-modify_where p q f [] h e = ground arith
  is_some-find?-modify_where p q f (x ∷ rs) h e =
      ground (arith, h x, is_some-find?-modify_where p q f rs h)
