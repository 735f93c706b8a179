-- ===== src/Worker/Predicted.antt =====
-- The job of backend/worker/handler.py with the predictor of backend/app/classifier/predictor.py.
use document_classifier.Prelude.{
  ℕ, ◌≤◌, ◌≡◌, refl, sym, ap, ◌∙◌, subst, true, some, List, [], ◌∷◌, String, length, member, All,
  arith, inl, inr, get_elem?,
}
use document_classifier.Exec.{ok, is_ok, is_ok-if, Result-cases}
use document_classifier.Contracts.{PredictionLabel}
use document_classifier.Classifier.Predictor.{Predictor}
use document_classifier.Classifier.Topk.{Descending, shares, Scored}
use document_classifier.Worker.Labels.{label_to_enum, classes}
use document_classifier.Worker.Job.{convert_top5, first_of}

label_to_enum-member : (s : String) → is_ok (label_to_enum s) ≡ member s classes
unfolding label_to_enum member classes
label_to_enum-member s = simp is_ok-if

label_to_enum-class :
    (s : String) → member s classes ≡ true → (l : PredictionLabel) × (label_to_enum s ≡ ok l)
label_to_enum-class s h = elim (Result-cases (label_to_enum s)) [
  | inl found ↦ found
  | inr (e, failed) ↦ absurd (ground (arith, label_to_enum-member s))
]

convert_top5_lem :
    (results : List (String × ℕ))
    → All Scored results
    → (labels : List (PredictionLabel × ℕ)) × (convert_top5 results ≡ ok labels)
      × (shares labels ≡ shares results)
unfolding convert_top5
convert_top5_lem [] h = ([], refl, refl)
convert_top5_lem ((text, n) ∷ rest) h =
    let (label, e) = label_to_enum-class text h.0.0 in
    let (labels, converted, s) = convert_top5_lem rest h.1 in
    ((label, n) ∷ labels, ground arith, ap (λ ns. n ∷ ns) s)

convert_top5-cons :
    (text : String) (n : ℕ) (rest : List (String × ℕ)) (label : PredictionLabel)
    (labels : List (PredictionLabel × ℕ))
    → label_to_enum text ≡ ok label
    → convert_top5 rest ≡ ok labels
    → convert_top5 ((text, n) ∷ rest) ≡ ok ((label, n) ∷ labels)
unfolding convert_top5
convert_top5-cons text n rest label labels e c = ground arith

first_of-cons :
    (text : String) (n : ℕ) (rest : List (String × ℕ)) → first_of ((text, n) ∷ rest) ≡ ok (text, n)
unfolding first_of
first_of-cons text n rest = refl

length-shares {ℓ κ} : {A : Type ℓ} {B : Type κ} (xs : List (A × B)) → length (shares xs) ≡ length xs
length-shares [] = refl
length-shares (x ∷ xs) = omega (arith, length-shares xs)

-- The entries of a prediction: five, the highest confidence first, and none above 1.
abbrev pub Ranked : PredictionLabel → ℕ → List (PredictionLabel × ℕ) → Type 0
Ranked label confidence labels =
    (get_elem? labels 0 ≡ some (label, confidence))
    × (length labels ≡ 5)
    × Descending (shares labels)
    × (confidence ≤ 10_000_000_000)

converted :
    (results : List (String × ℕ))
    → length results ≡ 5
    → Descending (shares results)
    → All Scored results
    → (top1 : String × ℕ) × (label : PredictionLabel) × (labels : List (PredictionLabel × ℕ))
      × (first_of results ≡ ok top1)
      × (label_to_enum top1.0 ≡ ok label)
      × (convert_top5 results ≡ ok labels)
      × Ranked label top1.1 labels
converted [] n falls scored = absurd (omega arith)
converted ((text, conf) ∷ rest) n falls scored =
    let (label, e) = label_to_enum-class text scored.0.0 in
    let (labels, converted, s) = convert_top5_lem rest scored.1 in
    let same : shares ((label, conf) ∷ labels) ≡ shares ((text, conf) ∷ rest) =
      ap (λ ns. conf ∷ ns) s in
    let many = length-shares ((label, conf) ∷ labels) in
    let more = length-shares ((text, conf) ∷ rest) in
    (
      (text, conf),
      label,
      (label, conf) ∷ labels,
      first_of-cons text conf rest,
      e,
      convert_top5-cons text conf rest label labels e converted,
      (
        refl,
        (sym many ∙ ap length same) ∙ (more ∙ n),
        subst Descending (sym same) falls,
        scored.0.1,
      ),
    )
