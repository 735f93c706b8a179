-- ===== src/Lists.antt =====
-- Prefixes and pieces of lists.
use document_classifier.Prelude.{
  ℕ, zero, suc, ◌+◌, ◌-◌, ◌≤◌, ◌<◌, ◌≡◌, refl, sym, ◌∙◌, ap, List, [], ◌∷◌, ◌++◌, arith, length,
  take, drop,
}

module _ {ℓ} {A : Type ℓ} where
  pub take-nil : (n : ℕ) → take {A = A} n [] ≡ []
  take-nil zero = refl
  take-nil (suc n) = refl

  pub take_all : (n : ℕ) (xs : List A) → length xs ≤ n → take n xs ≡ xs
  take_all zero [] h = refl
  take_all zero (x ∷ xs) h = absurd (omega arith)
  take_all (suc n) [] h = refl
  take_all (suc n) (x ∷ xs) h = ap (λ s. x ∷ s) (take_all n xs (omega arith))

  pub take-append_page : (n m : ℕ) (xs : List A) → take n xs ++ take m (drop n xs) ≡ take (n + m) xs
  take-append_page zero m xs = let e : 0 + m ≡ m = omega arith in rw e
  take-append_page (suc n) m [] = take-nil m ∙ sym (take-nil (suc n + m))
  take-append_page (suc n) m (x ∷ xs) =
      let e : suc n + m ≡ suc (n + m) = omega arith in
      rw e (ap (λ s. x ∷ s) (take-append_page n m xs))

  pub length-take-le : (n : ℕ) (xs : List A) → length (take n xs) ≤ n
  length-take-le zero xs = omega arith
  length-take-le (suc n) [] = omega arith
  length-take-le (suc n) (x ∷ xs) = omega (arith, length-take-le n xs)

  pub length-drop : (n : ℕ) (xs : List A) → length (drop n xs) ≡ length xs - n
  length-drop zero xs = omega arith
  length-drop (suc n) [] = omega arith
  length-drop (suc n) (x ∷ xs) = omega (arith, length-drop n xs)

  -- A prefix is short because the list is.
  pub length_of_short : (m : ℕ) (xs : List A) → length (take m xs) < m → length xs < m
  length_of_short zero xs h = absurd (omega arith)
  length_of_short (suc m) [] h = omega arith
  length_of_short (suc m) (x ∷ xs) h = omega (arith, length_of_short m xs (omega arith))

  pub length_of_full : (m : ℕ) (xs : List A) → m ≤ length (take m xs) → m ≤ length xs
  length_of_full zero xs h = omega arith
  length_of_full (suc m) [] h = h
  length_of_full (suc m) (x ∷ xs) h = omega (arith, length_of_full m xs (omega arith))
