-- ===== src/Uuid/Digits.antt =====
-- The hexadecimal digits of a UUID: their characters, and the number that they stand for.
use mathlib.Core.List.{reverse-append}
use native.Mathlib.Nat.{pow-suc}
use document_classifier.Prelude.{
  ℕ, zero, suc, ◌+◌, ◌*◌, ◌/◌, ◌%◌, ◌^◌, ◌<◌, ◌≡◌, refl, ap, ◌∙◌, Bool, true, false, ◌&&◌, ◌||◌,
  Option, none, some, List, [], ◌∷◌, ◌++◌, reverse, String, code, arith, leb, ◌==◌, codes, length,
  take, drop,
}
use document_classifier.Uuid.{hex_digit, hex_value, hex_char, hex_digits, digits_text}

-- A character that `str(uuid)` writes: a digit or a small letter up to f, or a dash.
abbrev pub is_hex : ℕ → Bool
is_hex c = (leb b'0' c && leb c b'9') || (leb b'a' c && leb c b'f')

abbrev pub is_written : ℕ → Bool
is_written c = is_hex c || c == b'-'

abbrev pub All : (ℕ → Bool) → List ℕ → Type 0
All p [] = Unit
All p (c ∷ s) = (p c ≡ true) × All p s

pub All-append : (p : ℕ → Bool) (s t : List ℕ) → All p s → All p t → All p (s ++ t)
All-append p [] t h k = k
All-append p (c ∷ s) t h k = (h.0, All-append p s t h.1 k)

pub All-reverse : (p : ℕ → Bool) (s : List ℕ) → All p s → All p (reverse s)
All-reverse p [] h = tt
All-reverse p (c ∷ s) h =
    rw (reverse-append (c ∷ []) s)
      (All-append p (reverse s) (c ∷ []) (All-reverse p s h.1) (h.0, tt))

pub All-weaken :
    (p q : ℕ → Bool) → ((c : ℕ) → p c ≡ true → q c ≡ true) → (s : List ℕ) → All p s → All q s
All-weaken p q f [] h = tt
All-weaken p q f (c ∷ s) h = (f c h.0, All-weaken p q f s h.1)

-- The codes of digits.
unfoldable pub hex_codes : List ℕ → List ℕ
hex_codes [] = []
hex_codes (d ∷ ds) = code (hex_char d) ∷ hex_codes ds

abbrev pub Digits : List ℕ → Type 0
Digits [] = Unit
Digits (d ∷ ds) = (d < 16) × Digits ds

-- The test `good` on the numbers below a bound.
every_below : (ℕ → Bool) → ℕ → Bool
every_below good zero = true
every_below good (suc bound) = every_below good bound && good bound

below-tested :
    (good : ℕ → Bool) (bound : ℕ) {d : ℕ}
    → d < bound
    → every_below good bound ≡ true
    → good d ≡ true
unfolding every_below
below-tested good zero small tested = absurd (omega arith)
below-tested good (suc bound) {d = d} small tested = ground (arith, below-tested good bound {d = d})

abbrev digit_is : ℕ → Option ℕ → Bool
digit_is d none = false
digit_is d (some e) = e == d

digit_is-some : (d : ℕ) (o : Option ℕ) → digit_is d o ≡ true → o ≡ some d
digit_is-some d o h = ground arith

hex_table : every_below (λ d. is_hex (code (hex_char d))) 16 ≡ true
unfolding every_below hex_char
hex_table = refl

digit_table : every_below (λ d. digit_is d (hex_digit (code (hex_char d)))) 16 ≡ true
unfolding every_below hex_digit hex_char
digit_table = refl

hex_char-is_hex : (d : ℕ) → d < 16 → is_hex (code (hex_char d)) ≡ true
hex_char-is_hex d h = below-tested (λ d. is_hex (code (hex_char d))) 16 h hex_table

pub hex_digit-hex_char : (d : ℕ) → d < 16 → hex_digit (code (hex_char d)) ≡ some d
hex_digit-hex_char d h =
    digit_is-some d (hex_digit (code (hex_char d)))
      (below-tested (λ d. digit_is d (hex_digit (code (hex_char d)))) 16 {d = d} h digit_table)

pub hex_codes-All : (ds : List ℕ) → Digits ds → All is_hex (hex_codes ds)
unfolding hex_codes
hex_codes-All [] h = tt
hex_codes-All (d ∷ ds) h = (hex_char-is_hex d h.0, hex_codes-All ds h.1)

pub codes-digits_text :
    (ds : List ℕ) (rest : String) → codes (digits_text ds rest) ≡ hex_codes ds ++ codes rest
unfolding digits_text hex_codes
codes-digits_text [] rest = refl
codes-digits_text (d ∷ ds) rest = ap (λ s. code (hex_char d) ∷ s) (codes-digits_text ds rest)

pub hex_codes-take-drop :
    (n : ℕ) (ds : List ℕ) → hex_codes (take n ds) ++ hex_codes (drop n ds) ≡ hex_codes ds
unfolding hex_codes
hex_codes-take-drop zero ds = refl
hex_codes-take-drop (suc n) [] = refl
hex_codes-take-drop (suc n) (d ∷ ds) = ap (λ s. code (hex_char d) ∷ s) (hex_codes-take-drop n ds)

-- The number that digits stand for, after `acc`.
unfoldable pub horner : ℕ → List ℕ → ℕ
horner acc [] = acc
horner acc (d ∷ ds) = horner (acc * 16 + d) ds

pub hex_value-hex_codes :
    (acc : ℕ) (ds : List ℕ) → Digits ds → hex_value acc true (hex_codes ds) ≡ some (horner acc ds)
unfolding hex_value hex_codes horner
hex_value-hex_codes acc [] h = refl
hex_value-hex_codes acc (d ∷ ds) h =
    ground (arith, hex_digit-hex_char d h.0, hex_value-hex_codes (acc * 16 + d) ds h.1)

pub hex_digits-Digits : (w n : ℕ) (rest : List ℕ) → Digits rest → Digits (hex_digits w n rest)
unfolding hex_digits
hex_digits-Digits zero n rest h = h
hex_digits-Digits (suc w) n rest h = hex_digits-Digits w (n / 16) (n % 16 ∷ rest) (omega arith, h)

pub length-hex_digits : (w n : ℕ) (rest : List ℕ) → length (hex_digits w n rest) ≡ w + length rest
unfolding hex_digits
length-hex_digits zero n rest = omega arith
length-hex_digits (suc w) n rest = omega (arith, length-hex_digits w (n / 16) (n % 16 ∷ rest))

pub horner-hex_digits :
    (w n : ℕ) (rest : List ℕ) → n < 16 ^ w → horner 0 (hex_digits w n rest) ≡ horner n rest
unfolding hex_digits horner
horner-hex_digits zero n rest h = let e : n ≡ 0 = omega arith in rw e
horner-hex_digits (suc w) n rest h =
    let smaller : n / 16 < 16 ^ w = omega (arith, pow-suc 16 w) in
    let e : n / 16 * 16 + n % 16 ≡ n = omega arith in
    horner-hex_digits w (n / 16) (n % 16 ∷ rest) smaller ∙ ap (λ k. horner k rest) e

pub Digits-take : (n : ℕ) (ds : List ℕ) → Digits ds → Digits (take n ds)
Digits-take zero ds h = tt
Digits-take (suc n) [] h = tt
Digits-take (suc n) (d ∷ ds) h = (h.0, Digits-take n ds h.1)

pub Digits-drop : (n : ℕ) (ds : List ℕ) → Digits ds → Digits (drop n ds)
Digits-drop zero ds h = h
Digits-drop (suc n) [] h = tt
Digits-drop (suc n) (d ∷ ds) h = Digits-drop n ds h.1
