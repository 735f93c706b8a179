-- ===== src/Ingest/Validation.antt =====
-- backend/sftp_ingest/validation.py
use Prim.Native.String.{◌++◌}
use document_classifier.Prelude.{
  ℕ, ◌+◌, Bool, false, ◌||◌, Option, none, some, List, [], ◌∷◌, reverse, String, Char, code, ltb,
  ◌==◌, str_eq, if◌then◌else◌, length,
}
use document_classifier.Exec.{Error, Result, ok, err, file_validation}
use document_classifier.Uuid.{Uuid, parse_uuid}

infixl 5 ◌>>=◌
abbrev ◌>>=◌ {ℓ κ} : {A : Type ℓ} {B : Type κ} → Result A → (A → Result B) → Result B
ok a >>= f = f a
err e >>= f = err e

abbrev pub Bytes : Type 0
Bytes = List ℕ

pub record IngestedDocument : Type 0 where
  pub remote_path : String
  pub batch_id : String
  pub document_id : String
  pub blob_key : String
  pub data_bytes : Bytes

push_char : Char → List String → List String
push_char c [] = String.◌∷◌ c "" ∷ []
push_char c (part ∷ parts) = String.◌∷◌ c part ∷ parts

-- `path.split('/')`
unfoldable pub split_slash : String → List String
unfolding push_char
split_slash String.[] = "" ∷ []
split_slash (String.◌∷◌ c s) =
    let parts = split_slash s in if code c == b'/' then "" ∷ parts else push_char c parts

-- The components of a `PurePosixPath` without its root: no empty one, and no dot.
unfoldable pub components : List String → List String
components [] = []
components (part ∷ parts) =
    let rest = components parts in if str_eq part "" || str_eq part "." then rest else part ∷ rest

unfoldable pub has_root : String → Bool
has_root String.[] = false
has_root (String.◌∷◌ c s) = code c == b'/'

-- The texts before and behind the last dot.
unfoldable pub split_dot : String → Option (String × String)
split_dot String.[] = none
split_dot (String.◌∷◌ c s) = elim (split_dot s) [
  | some (before, behind) ↦ some (String.◌∷◌ c before, behind)
  | none ↦ if code c == b'.' then some ("", s) else none
]

-- `path.stem`, of the last component: what is before the last dot, unless that dot is the first
-- character or the last.
unfoldable pub stem : String → String
unfolding split_dot
stem name = elim (split_dot name) [
  | none ↦ name
  | some (before, behind) ↦ if str_eq before "" || str_eq behind "" then name else before
]

unfoldable pub validate_uuid : String → Result Uuid
validate_uuid value = elim (parse_uuid value) [ ok u ↦ ok u | err _ ↦ err file_validation ]

-- `path.parent.name` and `path.stem`, from the components, the last one first.
unfoldable pub last_two : List String → Option (String × String)
last_two (name ∷ parent ∷ rest) = some (parent, name)
last_two _ = none

unfoldable pub parse_remote_path : String → Result (String × String)
unfolding split_slash components has_root stem validate_uuid last_two
parse_remote_path remote_path =
    let parts = components (split_slash remote_path) in
    if ltb (length parts + (if has_root remote_path then 1 else 0)) 3
    then err file_validation
    else elim (last_two (reverse parts)) [
      | none ↦ err file_validation
      | some (parent, name) ↦ do
        batch ← validate_uuid parent
        document ← validate_uuid (stem name)
        ok (parent, stem name)
    ]

-- What `Image.open(data)` and `image.verify()` of PIL come to: an `UnidentifiedImageError`, another
-- exception, or an image and its format.
pub data Opened : Type 0 where
  unidentified : Opened
  broken : Error → Opened
  image : String → Opened

unfoldable pub blob_key_of : String → String → String
blob_key_of batch_id document_id = "documents/" ++ (batch_id ++ ("/" ++ (document_id ++ ".tif")))

module _ (open_image : Bytes → Opened) where
  -- The `try` around the image.
  unfoldable pub check_image : Bytes → Result (Unit {0})
  check_image bytes = elim (open_image bytes) [
    | unidentified ↦ err file_validation
    | broken e ↦ err e
    | image format ↦ if str_eq format "TIFF" then ok tt else err file_validation
  ]

  unfoldable pub validate_tiff : String → Bytes → ℕ → Result IngestedDocument
  unfolding check_image parse_remote_path blob_key_of
  validate_tiff remote_path bytes max_bytes =
      if length bytes == 0
      then err file_validation
      else if ltb max_bytes (length bytes)
      then err file_validation
      else do
        checked ← check_image bytes
        ids ← parse_remote_path remote_path
        ok (record {
          remote_path = remote_path;
          batch_id = ids.0;
          document_id = ids.1;
          blob_key = blob_key_of ids.0 ids.1;
          data_bytes = bytes;
        })
