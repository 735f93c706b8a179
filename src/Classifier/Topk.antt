-- ===== src/Classifier/Topk.antt =====
-- What the predictor of backend/app/classifier/predictor.py gives.
use document_classifier.Prelude.{
  ℕ, zero, suc, ◌+◌, ◌≤◌, ◌<◌, ◌≡◌, refl, sym, ap, subst, ◌∙◌, true, none, some, List, [], ◌∷◌,
  String, eq_iff, length, member, drop, get_elem?, All, All-map, arith, map,
}
use document_classifier.Exec.{ok, err, index_error}
use document_classifier.Blob.{Bytes}
use document_classifier.Worker.{classes}
use document_classifier.Classifier.Predictor.{Torch, class_at, Predictor, collect, predict_topk}

abbrev pub Descending : List ℕ → Type 0
Descending [] = Unit
Descending (x ∷ []) = Unit
Descending (x ∷ y ∷ ys) = (y ≤ x) × Descending (y ∷ ys)

abbrev pub shares {ℓ κ} : {A : Type ℓ} {B : Type κ} → List (A × B) → List B
shares [] = []
shares ((a, b) ∷ rest) = b ∷ shares rest

-- What the code relies on: the network ends in a layer of 16 outputs, and a softmax is at most 1;
-- `torch.topk` of k entries, if there are as many, gives entries with their indices, the greatest first.
pub record TorchLaws (T : Torch) : Type 0 where
  pub share_le :
      (w : T.Network) (img : T.Image) (n : ℕ) (p : T.Share)
      → get_elem? (T.infer w img) n ≡ some p
      → T.round p ≤ 10_000_000_000
  pub topk_takes :
      (w : T.Network) (img : T.Image) (k : ℕ)
      → k ≤ 16
      → (top : List (T.Share × ℕ)) × (T.topk (T.infer w img) k ≡ ok top) × (length top ≡ k)
  pub topk_entries :
      (w : T.Network) (img : T.Image) (k : ℕ) (top : List (T.Share × ℕ))
      → T.topk (T.infer w img) k ≡ ok top
      → All (λ (p : T.Share × ℕ). (p.1 < 16) × (get_elem? (T.infer w img) p.1 ≡ some p.0)) top
  pub topk_sorted :
      (w : T.Network) (img : T.Image) (k : ℕ) (top : List (T.Share × ℕ))
      → T.topk (T.infer w img) k ≡ ok top
      → Descending (map (λ (p : T.Share × ℕ). T.round p.0) top)

get_elem?-lt :
    (xs : List String) (i : ℕ)
    → i < length xs
    → (s : String) × (get_elem? xs i ≡ some s) × (member s xs ≡ true)
unfolding member
get_elem?-lt [] i h = absurd (omega arith)
get_elem?-lt (x ∷ xs) zero h = (x, refl, rw ((eq_iff x x).1 refl) refl)
get_elem?-lt (x ∷ xs) (suc i) h =
    let (s, e, m) = get_elem?-lt xs i (omega arith) in (s, e, ground arith)

length-classes : length classes ≡ 16
unfolding classes
length-classes = refl

class_at-lt : (i : ℕ) → i < 16 → (s : String) × (class_at i ≡ ok s) × (member s classes ≡ true)
unfolding class_at
class_at-lt i h =
    let (s, e, m) = get_elem?-lt classes i (omega (arith, length-classes)) in
    (s, ap (λ o. elim o [ some label ↦ ok label | none ↦ err index_error ]) e, m)

get_elem?-drop {ℓ} :
    {A : Type ℓ} (xs : List A) (i : ℕ) (x : A) (rest : List A)
    → drop i xs ≡ x ∷ rest
    → (get_elem? xs i ≡ some x) × (drop (suc i) xs ≡ rest)
get_elem?-drop [] zero x rest h = absurd (ground arith)
get_elem?-drop [] (suc i) x rest h = absurd (ground arith)
get_elem?-drop (y ∷ ys) zero x rest h = (ground arith, ground arith)
get_elem?-drop (y ∷ ys) (suc i) x rest h = get_elem?-drop ys i x rest h

-- An entry of the first sixteen, and at most 1.
abbrev Proper : (T : Torch) → T.Share × ℕ → Type 0
Proper T p = (p.1 < 16) × (T.round p.0 ≤ 10_000_000_000)

-- A class of the predictor, and at most 1.
abbrev pub Scored : String × ℕ → Type 0
Scored r = (member r.0 classes ≡ true) × (r.1 ≤ 10_000_000_000)

module _ (T : Torch) where
  -- The loop over the entries from the i-th on.
  collect_lem :
      (top rest : List (T.Share × ℕ)) (i : ℕ)
      → drop i top ≡ rest
      → All (Proper T) rest
      → (results : List (String × ℕ)) × (collect T top (length rest) i ≡ ok results)
        × (length results ≡ length rest)
        × (shares results ≡ map (λ (p : T.Share × ℕ). T.round p.0) rest)
        × All Scored results
  unfolding collect
  collect_lem top [] i e h = ([], refl, refl, refl, tt)
  collect_lem top ((conf, idx) ∷ rest) i e h =
      let (found, next) = get_elem?-drop top i (conf, idx) rest e in
      let (label, named, m) = class_at-lt idx h.0.0 in
      let after : drop (i + 1) top ≡ rest =
        subst (λ j. drop j top ≡ rest) {x = suc i} {y = i + 1} (omega arith) next in
      let (results, r, n, s, all) = collect_lem top rest (i + 1) after h.1 in
      (
        (label, T.round conf) ∷ results,
        ground arith,
        omega (arith, n),
        ap (λ ns. T.round conf ∷ ns) s,
        ((m, h.0.1), all),
      )

module _ (T : Torch) (L : TorchLaws T) (self : Predictor T) (image_bytes : Bytes)
    (network : T.Network) (loaded : self.model ≡ some network) (img : T.Image)
    (opens : T.open_image image_bytes ≡ ok img) where
  collected :
      (k : ℕ) (top : List (T.Share × ℕ)) (results : List (String × ℕ))
      → T.topk (T.infer network img) k ≡ ok top
      → collect T top k 0 ≡ ok results
      → 0 < length results
      → predict_topk T self image_bytes k ≡ ok (results, T.elapsed_ms)
  unfolding predict_topk
  collected k top [] took r h = absurd (omega arith)
  collected k top (top1 ∷ rest) took r h = ground arith

  -- Of an image that PIL opens, a loaded predictor that is asked for one to sixteen classes gives as many,
  -- each with the name of a class; the confidences fall, and none is above 1.
  pub predict_topk_lem :
      (k : ℕ)
      → 0 < k
      → k ≤ 16
      → (results : List (String × ℕ)) × (predict_topk T self image_bytes k
          ≡ ok (results, T.elapsed_ms))
        × (length results ≡ k)
        × Descending (shares results)
        × All Scored results
  predict_topk_lem k low high =
      let (top, took, many) = L.topk_takes network img k high in
      let entries = L.topk_entries network img k top took in
      let fine : All (Proper T) top =
        All-map (λ p h. (h.0, L.share_le network img p.1 p.0 h.1)) top entries in
      let (results, r, n, s, all) = collect_lem T top top 0 refl fine in
      let all_k : collect T top k 0 ≡ ok results =
        subst (λ j. collect T top j 0 ≡ ok results) {x = length top} {y = k} many r in
      (
        results,
        collected k top results took all_k (omega arith),
        n ∙ many,
        subst Descending (sym s) (L.topk_sorted network img k top took),
        all,
      )
