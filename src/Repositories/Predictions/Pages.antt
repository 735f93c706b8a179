-- ===== src/Repositories/Predictions/Pages.antt =====
-- The pages of `list_paginated`. Each page is a SELECT of its own, and each may order rows of one time as
-- it likes.
use mathlib.Core.List.Perm
use mathlib.Core.Logic.Or
use mathlib.Core.Logic.{∥∥₁_elim}
use native.Mathlib.Nat.{ℕ_set}
use mathlib.Core.List.{Mem, Perm, Permᴰ, mem-cons, mem-cons_self, mem-cons_of_mem, not-mem-nil}
use native.Mathlib.Bridge.{le_prop}
use native.Mathlib.Numerals.{sub-one}
use document_classifier.Prelude.{
  ℕ, zero, suc, ◌+◌, ◌-◌, ◌*◌, ◌≤◌, ◌≡◌, ◌∙◌, refl, sym, subst, List, [], ◌∷◌, ◌++◌, Option, String,
  arith, length, take, drop,
}
use document_classifier.Lists.{take_all, take-append_page, length-take-le}
use document_classifier.Contracts.{PredictionLabel}
use document_classifier.Db.{Prediction, Db, select_where}
use document_classifier.Repositories.Predictions.{page_rows, matches}

-- ORDER BY created_at DESC
abbrev pub NewestFirst : List Prediction → Type 0
NewestFirst [] = Unit {0}
NewestFirst (r ∷ rows) =
    ((later : Prediction) → Mem later rows → later.created_at ≤ r.created_at) × NewestFirst rows

-- The rows of one time are one row.
abbrev pub HasDistinctTimes : List Prediction → Type 0
HasDistinctTimes rows =
    (a b : Prediction) → Mem a rows → Mem b rows → a.created_at ≡ b.created_at → a ≡ b

head_first :
    (x y : Prediction) (ys : List Prediction)
    → NewestFirst (y ∷ ys)
    → Mem x (y ∷ ys)
    → x.created_at ≤ y.created_at
head_first x y ys sorted m = Or.elim le_prop (mem-cons.0 m) (λ e. ground arith) (sorted.0 x)

-- There is one order of rows with distinct times.
same_order :
    (xs ys : List Prediction)
    → NewestFirst xs
    → NewestFirst ys
    → HasDistinctTimes xs
    → Perm xs ys
    → xs ≡ ys
same_order [] [] f g d p = refl
same_order [] (y ∷ ys) f g d p = absurd (not-mem-nil (Perm.subset (Perm.symm p) y mem-cons_self))
same_order (x ∷ xs) [] f g d p = absurd (not-mem-nil (Perm.subset p x mem-cons_self))
same_order (x ∷ xs) (y ∷ ys) f g d p =
    let up = head_first x y ys g (Perm.subset p x mem-cons_self) in
    let y_listed = Perm.subset (Perm.symm p) y mem-cons_self in
    let down = head_first y x xs f y_listed in
    let same : x ≡ y = d x y mem-cons_self y_listed (omega arith) in
    let rest : Perm xs ys = Perm.cons_inv (subst (λ z. Perm (x ∷ xs) (z ∷ ys)) (sym same) p) in
    let tails : xs ≡ ys =
      same_order xs ys f.1 g.1 (λ a b m n. d a b (mem-cons_of_mem x m) (mem-cons_of_mem x n))
        rest in
    rw (same, tails) refl

length-Permᴰ : {xs ys : List Prediction} → Permᴰ xs ys → length xs ≡ length ys
length-Permᴰ Permᴰ.nil = refl
length-Permᴰ (Permᴰ.cons e p) = omega (arith, length-Permᴰ p)
length-Permᴰ (Permᴰ.swap d e) = omega arith
length-Permᴰ (Permᴰ.trans p q) = length-Permᴰ p ∙ length-Permᴰ q

length-Perm : {xs ys : List Prediction} → Perm xs ys → length xs ≡ length ys
length-Perm p = ∥∥₁_elim p (ℕ_set _ _) length-Permᴰ

module _ (orders : ℕ → List Prediction → List Prediction) (label_filter : Option PredictionLabel)
    (color_filter : Option String) (db : Db) where
  -- The rows that the two filters let through.
  abbrev pub rows : List Prediction
  rows = select_where (matches label_filter color_filter) db.predictions

  -- The pages 1 to `n`, one behind the other.
  abbrev pub first_pages : ℕ → ℕ → List Prediction
  first_pages limit zero = []
  first_pages limit (suc n) =
      first_pages limit n ++ page_rows (orders (suc n)) (suc n) limit label_filter color_filter db

  module _ (ordered : (page : ℕ) → Perm (orders page rows) rows × NewestFirst (orders page rows))
      (distinct : HasDistinctTimes rows) where
    one_order : (page : ℕ) → orders page rows ≡ orders 1 rows
    one_order page =
        same_order (orders page rows) (orders 1 rows) (ordered page).1 (ordered 1).1
          (λ a b m n.
            distinct a b (Perm.subset (ordered page).0 a m) (Perm.subset (ordered page).0 b n))
          (Perm.trans (ordered page).0 (Perm.symm (ordered 1).0))

    first_pages-eq-take : (limit n : ℕ) → first_pages limit n ≡ take (n * limit) (orders 1 rows)
    unfolding page_rows
    first_pages-eq-take limit zero = let e : 0 * limit ≡ 0 = omega arith in rw e
    first_pages-eq-take limit (suc n) =
        let page : (suc n - 1) * limit ≡ n * limit = simp sub-one in
        let total : suc n * limit ≡ n * limit + limit = omega arith in
        rw (first_pages-eq-take limit n, one_order (suc n))
          (rw (page, total) (take-append_page (n * limit) limit (orders 1 rows)))

    -- Let the times of the rows be distinct, and let the query of each page order them by time, the
    -- newest first. Then enough pages, one behind the other, are all the rows that the filters let
    -- through, each as often as it is there and the newest first; and no page is longer than the limit.
    pub pages_cover :
        (limit n : ℕ)
        → length rows ≤ n * limit
        → Perm (first_pages limit n) rows
          × NewestFirst (first_pages limit n)
          × ((page : ℕ)
              → length (page_rows (orders page) page limit label_filter color_filter db) ≤ limit)
    unfolding page_rows
    pages_cover limit n h =
        let same : length (orders 1 rows) ≡ length rows = length-Perm (ordered 1).0 in
        let all : first_pages limit n ≡ orders 1 rows =
          first_pages-eq-take limit n ∙ take_all (n * limit) (orders 1 rows) (omega arith) in
        (
          subst (λ l. Perm l rows) (sym all) (ordered 1).0,
          subst NewestFirst (sym all) (ordered 1).1,
          λ page. length-take-le limit (drop ((page - 1) * limit) (orders page rows)),
        )
