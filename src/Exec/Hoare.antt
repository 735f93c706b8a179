-- ===== src/Exec/Hoare.antt =====
-- What holds after a call, by how it ended, and the rule for one call behind another.
use document_classifier.Exec.{Result, ok, err, Exec, ◌>>=◌}

-- `Q` of the value and the state where the call returned, `P` of the state where it raised.
abbrev pub After : {A S : Type 0} → (S → Type 0) → (A → S → Type 0) → Result A × S → Type 0
After P Q (ok a, s) = Q a s
After P Q (err e, s) = P s

module _ {A B S : Type 0} (P : S → Type 0) (Q : A → S → Type 0) (R : B → S → Type 0) where
  pub bind-After :
      (m : Exec S A) (f : A → Exec S B)
      → ((a : A) (s : S) → Q a s → After P R (f a s))
      → (s : S) → After P Q (m s)
      → After P R ((m >>= f) s)
  bind-After m f next s h = go (m s) h
    where
      go :
          (x : Result A × S)
          → After P Q x
          → After P R (elim x.0 [ ok a ↦ f a x.1 | err e ↦ (err e, x.1) ])
      go (ok a, s') k = next a s' k
      go (err e, s') k = k

module _ {A S : Type 0} (P P' : S → Type 0) (Q Q' : A → S → Type 0) where
  pub After-weaken :
      ((s : S) → P s → P' s)
      → ((a : A) (s : S) → Q a s → Q' a s)
      → (x : Result A × S) → After P Q x
      → After P' Q' x
  After-weaken f g (ok a, s) h = g a s h
  After-weaken f g (err e, s) h = f s h
