-- ===== src/Tests/Torch.antt =====
-- A network for the tests.
use document_classifier.Prelude.{
  ℕ, zero, suc, ◌≤◌, ◌<◌, ◌≡◌, refl, subst, some, List, [], ◌∷◌, length, take, get_elem?, All, map,
  arith,
}
use document_classifier.Exec.{Result, ok}
use document_classifier.Blob.{Bytes}
use document_classifier.Classifier.Predictor.{Torch}
use document_classifier.Classifier.Topk.{TorchLaws, Descending}

-- A network that finds memos, last of the classes.
abbrev pub entries : List (ℕ × ℕ)
entries =
    (6_000_000_000, 15)
    ∷ (2_000_000_000, 0)
    ∷ (1_000_000_000, 1)
    ∷ (500_000_000, 2)
    ∷ (500_000_000, 3)
    ∷ (0, 4)
    ∷ (0, 5)
    ∷ (0, 6)
    ∷ (0, 7)
    ∷ (0, 8)
    ∷ (0, 9)
    ∷ (0, 10)
    ∷ (0, 11)
    ∷ (0, 12)
    ∷ (0, 13)
    ∷ (0, 14)
    ∷ []

abbrev pub inferred : List ℕ
inferred =
    2_000_000_000 ∷ 1_000_000_000 ∷ 500_000_000 ∷ 500_000_000 ∷ 0 ∷ 0 ∷ 0 ∷ 0 ∷ 0 ∷ 0 ∷ 0 ∷ 0 ∷ 0
    ∷ 0 ∷ 0 ∷ 6_000_000_000 ∷ []

abbrev pub torch : Torch
torch = record {
  Network = Unit {0};
  Image = Bytes;
  Share = ℕ;
  load = λ path. ok tt;
  open_image = λ bytes. ok bytes;
  infer = λ w img. inferred;
  max = λ xs. (6_000_000_000, 15);
  topk = λ xs k. ok (take k entries);
  round = λ p. p;
  elapsed_ms = 40;
}

length-take {ℓ} : {A : Type ℓ} (k : ℕ) (xs : List A) → k ≤ length xs → length (take k xs) ≡ k
length-take zero xs h = refl
length-take (suc k) [] h = absurd (omega arith)
length-take (suc k) (x ∷ xs) h = omega (arith, length-take k xs (omega arith))

All-take : {A : Type 0} (P : A → Type 0) (k : ℕ) (xs : List A) → All P xs → All P (take k xs)
All-take P zero xs h = tt
All-take P (suc k) [] h = tt
All-take P (suc k) (x ∷ xs) h = (h.0, All-take P k xs h.1)

Descending-take :
    {A : Type 0} (f : A → ℕ) (k : ℕ) (xs : List A)
    → Descending (map f xs)
    → Descending (map f (take k xs))
Descending-take f zero xs h = tt
Descending-take f (suc k) [] h = tt
Descending-take f (suc zero) (x ∷ xs) h = tt
Descending-take f (suc (suc k)) (x ∷ []) h = tt
Descending-take f (suc (suc k)) (x ∷ y ∷ xs) h = (h.0, Descending-take f (suc k) (y ∷ xs) h.1)

get_elem?-All : (P : ℕ → Type 0) (xs : List ℕ) (n p : ℕ) → All P xs → get_elem? xs n ≡ some p → P p
get_elem?-All P [] n p h e = absurd (ground arith)
get_elem?-All P (x ∷ xs) zero p h e = let same : x ≡ p = ground arith in subst P same h.0
get_elem?-All P (x ∷ xs) (suc n) p h e = get_elem?-All P xs n p h.1 e

taken :
    (k : ℕ) (top : List (ℕ × ℕ))
    → ◌≡◌ {A = Result (List (ℕ × ℕ))} (ok (take k entries)) (ok top)
    → take k entries ≡ top
taken k top e = cc

pub torch_laws : TorchLaws torch
torch_laws = record {
  share_le = λ w img n p e. get_elem?-All (λ p. p ≤ 10_000_000_000) inferred n p (omega arith) e;
  topk_takes = λ w img k h. (take k entries, refl, length-take k entries (omega arith));
  topk_entries = λ w img k top e.
      subst (All (λ (p : ℕ × ℕ). (p.1 < 16) × (get_elem? inferred p.1 ≡ some p.0))) (taken k top e)
        (All-take (λ (p : ℕ × ℕ). (p.1 < 16) × (get_elem? inferred p.1 ≡ some p.0)) k entries
          (ground arith));
  topk_sorted = λ w img k top e.
      subst (λ t. Descending (map (λ (p : ℕ × ℕ). p.0) t)) (taken k top e)
        (Descending-take (λ (p : ℕ × ℕ). p.0) k entries (omega arith));
}
