-- ===== src/Worker/Classes.antt =====
-- The classes of the predictor and the labels of the contracts.

use Prim.Native.String.{◌++◌}
use document_classifier.Prelude.{◌≡◌, refl, String, code, ◌==◌, if◌then◌else◌}
use document_classifier.Exec.{ok}
use document_classifier.Contracts.{PredictionLabel, letter, label_value}
use document_classifier.Worker.Labels.{label_to_enum, classes}
use document_classifier.Prelude.{member, true}

-- A text with blanks for underscores: how the predictor writes a label.
abbrev pub spaced : String → String
spaced String.[] = ""
spaced (String.◌∷◌ c s) =
    let rest = spaced s in if code c == 95 then " " ++ rest else String.◌∷◌ c rest

-- Every label, written with blanks for its underscores, is a class of the predictor, and is mapped back
-- to that label.
pub label_to_enum-spaced :
    (l : PredictionLabel)
    → (member (spaced (label_value l)) classes ≡ true)
      × (label_to_enum (spaced (label_value l)) ≡ ok l)
unfolding label_to_enum label_value classes member
label_to_enum-spaced letter = (refl, refl)
label_to_enum-spaced _ = (refl, refl)
