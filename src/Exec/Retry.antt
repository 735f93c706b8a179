-- ===== src/Exec/Retry.antt =====
-- tenacity's `retry` and `Retrying`, as the code uses them: an attempt that raises is made again as long
-- as its error is one to retry and attempts are left; the last error is raised (`reraise=True`).
use document_classifier.Prelude.{ℕ, zero, suc, Bool, inl, inr, Bool-cases, if◌then◌else◌}
use document_classifier.Exec.{Error, Result, ok, err, Exec}
use document_classifier.Exec.Hoare.{After}

module _ {S A : Type 0} (retryable : Error → Bool) (attempt : Exec S A) where
  -- `more` attempts are left behind this one: two, for `stop_after_attempt(3)`.
  unfoldable pub retry : ℕ → Exec S A
  retry zero s = attempt s
  retry (suc more) s =
      let (r, s') = attempt s in
      elim r [
        | ok a ↦ (ok a, s')
        | err e ↦ let again = retry more s' in if retryable e then again else (err e, s')
      ]

  -- What one attempt keeps when it raises, and reaches when it returns, the attempts together do.
  pub retry-After :
      (P : S → Type 0) (Q : A → S → Type 0)
      → ((s : S) → P s → After P Q (attempt s))
      → (more : ℕ) (s : S) → P s
      → After P Q (retry more s)
  unfolding retry
  retry-After P Q once zero s h = once s h
  retry-After P Q once (suc more) s h = go (retry-After P Q once more) (attempt s) (once s h)
    where
      go :
          ((s' : S) → P s' → After P Q (retry more s'))
          → (x : Result A × S) → After P Q x
          → After P Q (elim x.0 [
            | ok a ↦ (ok a, x.1)
            | err e ↦ let again = retry more x.1 in if retryable e then again else (err e, x.1)
          ])
      go again (ok a, s') k = k
      go again (err e, s') k = elim (Bool-cases (retryable e)) [
        | inl retried ↦ rw retried (again s' k)
        | inr raised ↦ rw raised k
      ]
