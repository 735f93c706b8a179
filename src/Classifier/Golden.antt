-- ===== src/Classifier/Golden.antt =====
-- backend/app/classifier/eval/golden.py: the replay of the golden set. The files and the JSON parser are
-- arguments; a confidence is a number of 10^-10, so the tolerance of 1e-6 is ten thousand.
use document_classifier.Prelude.{
  ℕ, ◌-◌, Bool, true, false, ◌&&◌, Option, none, some, List, String, str_eq, leb,
}
use document_classifier.Exec.{Result, ok, err, runtime_error, os_error, other_error}
use document_classifier.Blob.{Bytes}
use document_classifier.Classifier.Predictor.{Torch, Predictor, predict}

pub record Expected : Type 0 where
  pub filename : String
  pub expected_label : String
  pub top1_confidence : ℕ

-- `GoldenDataError` is a RuntimeError. `parse` gives none for a text that is no JSON, and a value that is no
-- list of entries as none inside.
unfoldable pub load_expected :
    {File : Type 0}
    → Option File
    → (File → Option (Option (List Expected)))
    → Result (List Expected)
load_expected none parse = err runtime_error
load_expected (some file) parse = elim (parse file) [
  | none ↦ err runtime_error
  | some none ↦ err runtime_error
  | some (some entries) ↦ ok entries
]

unfoldable pub read_golden_image_bytes : (String → Option Bytes) → String → Result Bytes
read_golden_image_bytes golden_dir filename = elim (golden_dir filename) [
  | some bytes ↦ ok bytes
  | none ↦ err os_error
]

-- `pytest.approx(expected, abs=1e-6)`
unfoldable pub approximately : ℕ → ℕ → Bool
approximately expected confidence =
    leb (expected - confidence) 10_000 && leb (confidence - expected) 10_000

-- An assertion that fails is an error.
unfoldable pub golden_replay :
    (T : Torch) → (String → Option Bytes) → Predictor T → Expected → Result (Unit {0})
unfolding approximately
golden_replay T golden_dir predictor e = elim (read_golden_image_bytes golden_dir e.filename) [
  | err error ↦ err error
  | ok image_bytes ↦ elim (predict T predictor image_bytes) [
    | err error ↦ err error
    | ok result ↦
        elim (str_eq result.label e.expected_label
          && approximately e.top1_confidence result.confidence) [
            | true ↦ ok tt
            | false ↦ err other_error
          ]
  ]
]
