-- ===== src/Classifier/StartupChecks.antt =====
-- backend/app/classifier/startup_checks.py. The files, the hash function, the JSON parser and the order
-- of the scores are arguments.
pub mod Passing
use document_classifier.Prelude.{
  Bool, true, false, Option, none, some, String, str_eq, not, if◌then◌else◌,
}
use document_classifier.Exec.{Error, Result, ok, err, os_error, other_error, startup_error}

-- What a path names: nothing, something that cannot be read, such as a directory, or a file.
pub data Entry (File : Type 0) : Type 0 where
  absent : Entry File
  unreadable : Error → Entry File
  readable : File → Entry File

-- A value of JSON, as far as its fields are read: `.get` of a value that is no object is an
-- AttributeError.
pub data Json (Card : Type 0) : Type 0 where
  no_object : Json Card
  object : Card → Json Card

-- What `json.load` makes of a file: a JSONDecodeError, another error, as for a text that is not UTF-8, or
-- a value.
pub data Reading (Card : Type 0) : Type 0 where
  not_json : Reading Card
  stopped : Error → Reading Card
  json : Json Card → Reading Card

-- A field of an object; numbers and nested values come with their truth value. A key that is missing is a
-- null: `.get` gives None for both.
pub data Field (Score : Type 0) : Type 0 where
  null : Field Score
  word : String → Field Score
  number : Bool → Score → Field Score
  nested : Bool → Field Score

unfoldable pub truth : {Score : Type 0} → Field Score → Bool
truth null = false
truth (word s) = not (str_eq s "")
truth (number t n) = t
truth (nested t) = t

-- A text is equal to no value of another type.
unfoldable pub equals : {Score : Type 0} → String → Field Score → Bool
equals s (word t) = str_eq s t
equals s _ = false

-- The fields of the model card that the checks read.
pub record ModelCard (Score : Type 0) : Type 0 where
  pub sha256 : Field Score
  pub test_top1 : Field Score

abbrev pub or_default {ℓ} : {A : Type ℓ} → Option A → A → A
or_default none a = a
or_default (some a) b = a

-- The file system: what each path names.
module _ {Score File : Type 0} (files : String → Entry File)
    (parse : File → Reading (ModelCard Score)) (hexdigest : File → String)
    (below : Score → Score → Bool) where
  unfoldable pub assert_weights_present : String → Result (Unit {0})
  assert_weights_present weights_path = elim (files weights_path) [
    | absent ↦ err startup_error
    | unreadable e ↦ ok tt
    | readable weights ↦ ok tt
  ]

  unfoldable pub load_model_card : String → Result (Json (ModelCard Score))
  load_model_card model_card_path = elim (files model_card_path) [
    | absent ↦ err startup_error
    | unreadable e ↦ err e
    | readable text ↦ elim (parse text) [
      | not_json ↦ err startup_error
      | stopped e ↦ err e
      | json card ↦ ok card
    ]
  ]

  -- `open(weights_path, "rb")`: weights that are gone by now are an OSError.
  unfoldable pub assert_sha256_matches : String → Json (ModelCard Score) → Result (Unit {0})
  unfolding truth equals
  assert_sha256_matches weights_path no_object = err other_error
  assert_sha256_matches weights_path (object card) =
      if truth card.sha256
      then elim (files weights_path) [
        | absent ↦ err os_error
        | unreadable e ↦ err e
        | readable weights ↦
            if equals (hexdigest weights) card.sha256 then ok tt else err startup_error
      ]
      else err startup_error

  -- What is no number cannot be compared with the bound: a TypeError.
  unfoldable pub assert_threshold_met : Json (ModelCard Score) → Score → Result (Unit {0})
  assert_threshold_met no_object min_top1 = err other_error
  assert_threshold_met (object card) min_top1 = elim card.test_top1 [
    | null ↦ err startup_error
    | word s ↦ err other_error
    | nested t ↦ err other_error
    | number t top1 ↦ if below top1 min_top1 then err startup_error else ok tt
  ]

  -- The paths and the bound that are used where an argument is None are `weights`, `card` and `bound`.
  unfoldable pub run_all_startup_checks :
      String → String → Score → Option String → Option String → Option Score → Result (Unit {0})
  unfolding assert_weights_present load_model_card assert_sha256_matches assert_threshold_met
  run_all_startup_checks default_weights default_card default_top1 weights_path card_path min_top1 =
      let weights = or_default weights_path default_weights in
      elim (assert_weights_present weights) [
        | err e ↦ err e
        | ok _ ↦ elim (load_model_card (or_default card_path default_card)) [
          | err e ↦ err e
          | ok card ↦ elim (assert_sha256_matches weights card) [
            | err e ↦ err e
            | ok _ ↦ assert_threshold_met card (or_default min_top1 default_top1)
          ]
        ]
      ]
