-- ===== src/Uuid.antt =====
-- Python's `uuid.UUID(text)` and `str(uuid)`, which `parse_uuid` of backend/app/repositories/
-- _mapping.py and `_validate_uuid` of backend/sftp_ingest/validation.py call. A UUID is its 128-bit
-- number. Digits and blanks outside ASCII, which `int(text, 16)` accepts too, are not modelled.
mod Digits
pub mod RoundTrip
use document_classifier.Prelude.{
  ℕ, zero, suc, ◌+◌, ◌-◌, ◌*◌, ◌/◌, ◌%◌, Bool, true, false, ◌&&◌, ◌||◌, Option, none, some, List,
  [], ◌∷◌, reverse, take, drop, Char, String, leb, ◌==◌, if◌then◌else◌, codes, length,
}
use document_classifier.Exec.{Result, ok, err, value_error}

abbrev pub Uuid : Type 0
Uuid = ℕ

abbrev starts_with : List ℕ → List ℕ → Bool
starts_with [] s = true
starts_with (p ∷ ps) [] = false
starts_with (p ∷ ps) (c ∷ s) = p == c && starts_with ps s

-- `s.replace(pattern, '')`: `skip` characters of a match are still to be dropped.
remove_from : List ℕ → ℕ → List ℕ → List ℕ
remove_from pattern skip [] = []
remove_from pattern (suc skip) (c ∷ s) = remove_from pattern skip s
remove_from pattern zero (c ∷ s) =
    let found = starts_with pattern (c ∷ s) in
    let rest = remove_from pattern (if found then length pattern - 1 else 0) s in
    if found then rest else c ∷ rest

remove_text : List ℕ → List ℕ → List ℕ
unfolding remove_from
remove_text pattern s = remove_from pattern 0 s

is_brace : ℕ → Bool
is_brace c = c == b'{' || c == b'}'

is_blank : ℕ → Bool
is_blank c = c == 32 || (leb 9 c && leb c 13) || (leb 28 c && leb c 31)

drop_while : (ℕ → Bool) → List ℕ → List ℕ
drop_while p [] = []
drop_while p (c ∷ s) = if p c then drop_while p s else c ∷ s

strip_by : (ℕ → Bool) → List ℕ → List ℕ
unfolding drop_while
strip_by p s = reverse (drop_while p (reverse (drop_while p s)))

pub hex_digit : ℕ → Option ℕ
hex_digit c =
    if leb b'0' c && leb c b'9'
    then some (c - b'0')
    else if leb b'a' c && leb c b'f'
    then some (c - b'a' + 10)
    else if leb b'A' c && leb c b'F'
    then some (c - b'A' + 10)
    else none

-- The digits of `int(text, 16)`; one underscore may stand between two digits, so an underscore needs
-- a digit behind it, and `after_digit` in front of it.
pub hex_value : ℕ → Bool → List ℕ → Option ℕ
hex_value acc after_digit [] = if after_digit then some acc else none
hex_value acc after_digit (c ∷ s) = elim (hex_digit c) [
  | some d ↦ hex_value (acc * 16 + d) true s
  | none ↦ if c == b'_' && after_digit then hex_value acc false s else none
]

-- `0x` in front, with one underscore behind it if there is one.
drop_prefix : List ℕ → List ℕ
drop_prefix (z ∷ x ∷ u ∷ s) =
    if z == b'0' && (x == b'x' || x == b'X')
    then (if u == b'_' then s else u ∷ s)
    else z ∷ x ∷ u ∷ s
drop_prefix s = s

-- `int(text, 16)`: the sign, and the number without it.
unsigned : List ℕ → Option ℕ
unfolding hex_value hex_digit drop_prefix
unsigned s = hex_value 0 false (drop_prefix s)

-- A negative number is out of range, so behind a minus only zero is a UUID.
only_zero : Option ℕ → Option ℕ
only_zero none = none
only_zero (some n) = if n == 0 then some 0 else none

int_base16 : List ℕ → Option ℕ
unfolding unsigned only_zero
int_base16 [] = none
int_base16 (c ∷ s) =
    if c == b'+' then unsigned s else if c == b'-' then only_zero (unsigned s) else unsigned (c ∷ s)

or_value_error : Option ℕ → Result Uuid
or_value_error none = err value_error
or_value_error (some n) = ok n

-- The text that is left for `int(hex, 16)`.
hex_text : List ℕ → List ℕ
unfolding remove_text strip_by is_brace
hex_text s =
    remove_text (codes "-")
      (strip_by is_brace (remove_text (codes "uuid:") (remove_text (codes "urn:") s)))

parse_codes : List ℕ → Result Uuid
unfolding hex_text int_base16 is_blank strip_by or_value_error
parse_codes s =
    let hex = hex_text s in
    if length hex == 32
    then or_value_error (int_base16 (strip_by is_blank hex))
    else err value_error

unfoldable pub parse_uuid : String → Result Uuid
unfolding parse_codes
parse_uuid value = parse_codes (codes value)

pub hex_char : ℕ → Char
hex_char d =
    if d == 0
    then "0"
    else if d == 1
    then "1"
    else if d == 2
    then "2"
    else if d == 3
    then "3"
    else if d == 4
    then "4"
    else if d == 5
    then "5"
    else if d == 6
    then "6"
    else if d == 7
    then "7"
    else if d == 8
    then "8"
    else if d == 9
    then "9"
    else if d == 10
    then "a"
    else if d == 11
    then "b"
    else if d == 12
    then "c"
    else if d == 13
    then "d"
    else if d == 14
    then "e"
    else "f"

-- The last `w` hexadecimal digits of `n`, in front of `rest`.
pub hex_digits : ℕ → ℕ → List ℕ → List ℕ
hex_digits zero n rest = rest
hex_digits (suc w) n rest = hex_digits w (n / 16) (n % 16 ∷ rest)

-- The digits as text, in front of `rest`.
pub digits_text : List ℕ → String → String
unfolding hex_char
digits_text [] rest = rest
digits_text (d ∷ ds) rest = String.◌∷◌ (hex_char d) (digits_text ds rest)

-- 32 digits in groups of 8, 4, 4, 4 and 12.
groups : List ℕ → String
unfolding digits_text
groups ds = digits_text (take 8 ds) (
    String.◌∷◌ "-" (
      digits_text (take 4 (drop 8 ds)) (
        String.◌∷◌ "-" (
          digits_text (take 4 (drop 12 ds)) (
            String.◌∷◌ "-" (
              digits_text (take 4 (drop 16 ds)) (String.◌∷◌ "-" (digits_text (drop 20 ds) ""))))))))

-- `str(uuid)`
unfoldable pub uuid_to_str : Uuid → String
unfolding hex_digits groups
uuid_to_str u = groups (hex_digits 32 u [])
