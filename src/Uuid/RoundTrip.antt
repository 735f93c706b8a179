-- ===== src/Uuid/RoundTrip.antt =====
-- Reading what `str(uuid)` writes gives the UUID back.
use mathlib.Core.List.{reverse-reverse, append-nil}
use document_classifier.Prelude.{
  ℕ, zero, suc, ◌+◌, ◌*◌, ◌^◌, ◌<◌, ◌≡◌, refl, sym, ap, ◌∙◌, Bool, true, false, some, List, [], ◌∷◌,
  ◌++◌, reverse, arith, ◌==◌, codes, length, take, drop,
}
use document_classifier.Uuid.Digits.{
  hex_digit-hex_char, is_hex, is_written, All, All-append, All-reverse, All-weaken, hex_codes,
  hex_codes-All, codes-digits_text, hex_codes-take-drop, Digits, Digits-take, Digits-drop,
  hex_digits-Digits, length-hex_digits, horner, hex_value-hex_codes, horner-hex_digits,
}
use document_classifier.Exec.{ok}
use document_classifier.Uuid.{
  Uuid, remove_from, is_brace, is_blank, drop_while, strip_by, hex_value, drop_prefix, unsigned,
  int_base16, hex_text, parse_codes, parse_uuid, hex_digits, groups, uuid_to_str,
}

-- Nothing of the pattern is there to remove.
remove_from-none :
    (p : ℕ) (ps : List ℕ) (q : ℕ → Bool) (s : List ℕ)
    → ((c : ℕ) → q c ≡ true → (p == c) ≡ false)
    → All q s
    → remove_from (p ∷ ps) 0 s ≡ s
unfolding remove_from
remove_from-none p ps q [] f h = refl
remove_from-none p ps q (c ∷ s) f h = ground (arith, f c h.0, remove_from-none p ps q s f h.1)

-- Of hexadecimal groups with dashes between, the dashes go.
remove_dash :
    (s t : List ℕ)
    → All is_hex s
    → remove_from (b'-' ∷ []) 0 (s ++ b'-' ∷ t) ≡ s ++ remove_from (b'-' ∷ []) 0 t
unfolding remove_from
remove_dash [] t h = refl
remove_dash (c ∷ s) t h = ground (arith, remove_dash s t h.1)

drop_while-none :
    (p q : ℕ → Bool) (s : List ℕ)
    → ((c : ℕ) → q c ≡ true → p c ≡ false)
    → All q s
    → drop_while p s ≡ s
unfolding drop_while
drop_while-none p q [] f h = refl
drop_while-none p q (c ∷ s) f h = ground (arith, f c h.0)

strip_by-none :
    (p q : ℕ → Bool) (s : List ℕ)
    → ((c : ℕ) → q c ≡ true → p c ≡ false)
    → All q s
    → strip_by p s ≡ s
unfolding strip_by
strip_by-none p q s f h =
    rw (drop_while-none p q s f h)
      (rw (drop_while-none p q (reverse s) f (All-reverse q s h)) (reverse-reverse s))

drop_prefix-none : (s : List ℕ) → All is_hex s → drop_prefix s ≡ s
unfolding drop_prefix
drop_prefix-none [] h = refl
drop_prefix-none (a ∷ []) h = refl
drop_prefix-none (a ∷ b ∷ []) h = refl
drop_prefix-none (a ∷ b ∷ c ∷ s) h = let h1 = h.1.0 in ground arith

-- The 36 characters: five groups of digits, with dashes between.
text_codes : List ℕ → List ℕ
text_codes ds =
    hex_codes (take 8 ds)
    ++ b'-'
      ∷ (hex_codes (take 4 (drop 8 ds))
          ++ b'-'
            ∷ (hex_codes (take 4 (drop 12 ds))
                ++ b'-' ∷ (hex_codes (take 4 (drop 16 ds)) ++ b'-' ∷ hex_codes (drop 20 ds))))

codes-groups : (ds : List ℕ) → codes (groups ds) ≡ text_codes ds
unfolding groups text_codes
codes-groups ds = simp (codes-digits_text, append-nil)

All-hex-written : (s : List ℕ) → All is_hex s → All is_written s
All-hex-written = All-weaken is_hex is_written (λ c h. ground arith)

Digits-written : (ds : List ℕ) → Digits ds → All is_written (hex_codes ds)
Digits-written ds h = All-hex-written (hex_codes ds) (hex_codes-All ds h)

-- Two parts with a dash between.
All-dash : (s t : List ℕ) → All is_written s → All is_written t → All is_written (s ++ b'-' ∷ t)
All-dash s t h k = All-append is_written s (b'-' ∷ t) h (refl, k)

text_codes-All : (ds : List ℕ) → Digits ds → All is_written (text_codes ds)
unfolding text_codes
text_codes-All ds h =
    let part = λ (n : ℕ).
      Digits-written (take 4 (drop n ds)) (Digits-take 4 (drop n ds) (Digits-drop n ds h)) in
    All-dash _ _ (Digits-written (take 8 ds) (Digits-take 8 ds h)) (
      All-dash _ _ (part 8) (
        All-dash _ _ (part 12)
          (All-dash _ _ (part 16) (Digits-written (drop 20 ds) (Digits-drop 20 ds h)))))

drop-nil : (n : ℕ) → drop {A = ℕ} n [] ≡ []
drop-nil zero = refl
drop-nil (suc n) = refl

drop-drop : (m n : ℕ) (ds : List ℕ) → drop m (drop n ds) ≡ drop (n + m) ds
drop-drop m zero ds = let e : 0 + m ≡ m = omega arith in rw e
drop-drop m (suc n) [] = drop-nil m ∙ sym (drop-nil (suc n + m))
drop-drop m (suc n) (d ∷ ds) =
    let e : suc n + m ≡ suc (n + m) = omega arith in rw e (drop-drop m n ds)

-- One group and what follows it.
group-drop :
    (n : ℕ) (ds : List ℕ)
    → hex_codes (take 4 (drop n ds)) ++ hex_codes (drop (n + 4) ds) ≡ hex_codes (drop n ds)
group-drop n ds = rw (← drop-drop 4 n ds) (hex_codes-take-drop 4 (drop n ds))

-- Without the dashes, the digits are left.
remove-text_codes :
    (ds : List ℕ) → Digits ds → remove_from (b'-' ∷ []) 0 (text_codes ds) ≡ hex_codes ds
unfolding text_codes
remove-text_codes ds h =
    let part = λ (n : ℕ).
      hex_codes-All (take 4 (drop n ds)) (Digits-take 4 (drop n ds) (Digits-drop n ds h)) in
    let last = hex_codes-All (drop 20 ds) (Digits-drop 20 ds h) in
    rw (remove_dash _ _ (hex_codes-All (take 8 ds) (Digits-take 8 ds h))) (
      rw (remove_dash _ _ (part 8)) (
        rw (remove_dash _ _ (part 12)) (
          rw (remove_dash _ _ (part 16)) (
            rw (remove_from-none b'-' [] is_hex (hex_codes (drop 20 ds)) (λ c k. ground arith) last)
              (rw (group-drop 16 ds)
                (rw (group-drop 12 ds) (rw (group-drop 8 ds) (hex_codes-take-drop 8 ds))))))))

hex_text-text_codes : (ds : List ℕ) → Digits ds → hex_text (text_codes ds) ≡ hex_codes ds
unfolding hex_text
hex_text-text_codes ds h =
    let written = text_codes-All ds h in
    rw
      (remove_from-none b'u' (b'r' ∷ b'n' ∷ b':' ∷ []) is_written (text_codes ds)
        (λ c k. ground arith) written)
      (rw
        (remove_from-none b'u' (b'u' ∷ b'i' ∷ b'd' ∷ b':' ∷ []) is_written (text_codes ds)
          (λ c k. ground arith) written)
        (rw
          (strip_by-none is_brace is_written (text_codes ds)
            (λ c k. unfold is_brace in ground arith) written)
          (remove-text_codes ds h)))

length-hex_codes : (ds : List ℕ) → length (hex_codes ds) ≡ length ds
unfolding hex_codes
length-hex_codes [] = refl
length-hex_codes (d ∷ ds) = ap suc (length-hex_codes ds)

unsigned-hex_codes :
    (d : ℕ) (ds : List ℕ)
    → Digits (d ∷ ds)
    → unsigned (hex_codes (d ∷ ds)) ≡ some (horner 0 (d ∷ ds))
unfolding unsigned hex_value hex_codes horner
unsigned-hex_codes d ds h =
    rw (drop_prefix-none (hex_codes (d ∷ ds)) (hex_codes-All (d ∷ ds) h))
      (ground (arith, hex_digit-hex_char d h.0, hex_value-hex_codes (0 * 16 + d) ds h.1))

int_base16-hex_codes :
    (ds : List ℕ) → Digits ds → 0 < length ds → int_base16 (hex_codes ds) ≡ some (horner 0 ds)
unfolding int_base16 hex_codes
int_base16-hex_codes [] h pos = absurd (omega arith)
int_base16-hex_codes (d ∷ ds) h pos =
    let shape = (hex_codes-All (d ∷ ds) h).0 in ground (arith, unsigned-hex_codes d ds h)

parse_codes-text_codes :
    (ds : List ℕ) → Digits ds → length ds ≡ 32 → parse_codes (text_codes ds) ≡ ok (horner 0 ds)
unfolding parse_codes
parse_codes-text_codes ds h len =
    let all = hex_codes-All ds h in
    rw (hex_text-text_codes ds h) (
      rw (strip_by-none is_blank is_hex (hex_codes ds) (λ c k. unfold is_blank in ground arith) all)
        (ground (arith, length-hex_codes ds, int_base16-hex_codes ds h (omega arith))))

parse_uuid-groups :
    (ds : List ℕ) → Digits ds → length ds ≡ 32 → parse_uuid (groups ds) ≡ ok (horner 0 ds)
unfolding parse_uuid
parse_uuid-groups ds h len = ap parse_codes (codes-groups ds) ∙ parse_codes-text_codes ds h len

horner-digits : (n : ℕ) → n < 2 ^ 128 → horner 0 (hex_digits 32 n []) ≡ n
unfolding horner
horner-digits n lt = horner-hex_digits 32 n [] lt

-- A UUID of 128 bits is read back from the text that `str` writes.
pub parse_uuid-uuid_to_str : (u : Uuid) → u < 2 ^ 128 → parse_uuid (uuid_to_str u) ≡ ok u
unfolding uuid_to_str
parse_uuid-uuid_to_str u h =
    parse_uuid-groups (hex_digits 32 u []) (hex_digits-Digits 32 u [] tt)
      (length-hex_digits 32 u [])
    ∙ ap (λ n. ok n) (horner-digits u h)
