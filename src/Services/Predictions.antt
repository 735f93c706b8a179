-- ===== src/Services/Predictions.antt =====
-- backend/app/services/prediction_service.py
pub mod Tail
pub mod Relabel
pub mod Comment
use Prim.Native.Char.{Char, code}
use Prim.Native.String
use Prim.Native.String.{◌++◌}
use document_classifier.Prelude.{
  ℕ, Bool, true, false, not, ◌&&◌, ◌||◌, Option, none, some, List, [], ◌∷◌, String, leb, ◌==◌,
  str_eq, if◌then◌else◌,
}
use document_classifier.Exec.{
  Result, ok, err, Exec, pure, raise, lift, gets, raise_if, ◌>>=◌, ◌>>◌, http,
}
use document_classifier.Contracts.{
  Role, UserOut, PredictionLabel, PredictionOut, is_admin, label_value,
}
use document_classifier.Db.{Prediction, Db}
use document_classifier.Repositories.Predictions as Repo
use document_classifier.Services.World.{CacheBackend, Codecs, World, on_db}
use document_classifier.Services.Cache.{cache_clear, cached_or}
use document_classifier.Services.Audit.{Stamp, record_entry}

-- 0.7, in units of 10^-10.
abbrev pub relabel_threshold : ℕ
relabel_threshold = 7_000_000_000

-- Admins can override any confidence; the others only a low one.
unfoldable pub relabel_refused : UserOut → PredictionOut → Bool
relabel_refused actor existing =
    not (is_admin actor.role) && leb relabel_threshold existing.top1_confidence

-- The change of the label and its entry.
unfoldable pub relabel_row :
    Stamp → UserOut → String → PredictionLabel → PredictionOut → Exec Db (String × PredictionOut)
relabel_row stamp actor prediction_id new_label existing = do
  updated ← Repo.update_label prediction_id new_label
  record_entry stamp (some actor.id) "relabel" prediction_id (
      some
        (("from", some (label_value existing.label)) ∷ ("to", some (label_value new_label)) ∷ []))
  pure (existing.batch_id, updated)

unfoldable pub relabel_db :
    Stamp → UserOut → String → PredictionLabel → Exec Db (String × PredictionOut)
relabel_db stamp actor prediction_id new_label = do
  existing ← Repo.get prediction_id
  raise_if (relabel_refused actor existing) (http 422)
  relabel_row stamp actor prediction_id new_label existing

-- The change of the comment and its entry.
unfoldable pub comment_row :
    Stamp
    → UserOut
    → String
    → Option String
    → Option String
    → PredictionOut
    → Exec Db (String × PredictionOut)
comment_row stamp actor prediction_id comment comment_color existing = do
  updated ← Repo.update_comment prediction_id comment comment_color
  record_entry stamp (some actor.id) "add_comment" prediction_id (
      some (
        ("comment", comment)
        ∷ ("color", comment_color)
        ∷ ("document_id", some existing.document_id)
        ∷ []))
  pure (existing.batch_id, updated)

unfoldable pub add_comment_db :
    Stamp → UserOut → String → Option String → Option String → Exec Db (String × PredictionOut)
add_comment_db stamp actor prediction_id comment comment_color = do
  existing ← Repo.get prediction_id
  comment_row stamp actor prediction_id comment comment_color existing

-- The blanks that `str.strip()` takes off.
unfoldable pub is_space : Char → Bool
is_space c =
    let n = code c in
    (leb 9 n && leb n 13)
    || (leb 28 n && leb n 32)
    || n == 133
    || n == 160
    || n == 5760
    || (leb 8192 n && leb n 8202)
    || n == 8232
    || n == 8233
    || n == 8239
    || n == 8287
    || n == 12288

unfoldable pub lstrip : String → String
unfolding is_space
lstrip String.[] = ""
lstrip (String.◌∷◌ c s) = let rest = lstrip s in if is_space c then rest else String.◌∷◌ c s

unfoldable pub rstrip : String → String
unfolding is_space
rstrip String.[] = ""
rstrip (String.◌∷◌ c s) =
    let rest = rstrip s in if str_eq rest "" && is_space c then "" else String.◌∷◌ c rest

unfoldable pub strip : String → String
unfolding lstrip rstrip
strip s = rstrip (lstrip s)

-- `cleaned`: the name without blanks at its ends, and None where nothing is left.
unfoldable pub clean_name : Option String → Option String
unfolding strip
clean_name none = none
clean_name (some name) =
    let cleaned = strip name in if str_eq cleaned "" then none else some cleaned

-- The change of the name and its entry.
unfoldable pub rename_row :
    Stamp → UserOut → String → Option String → PredictionOut → Exec Db (String × PredictionOut)
rename_row stamp actor prediction_id cleaned existing = do
  updated ← Repo.update_name prediction_id cleaned
  record_entry stamp (some actor.id) "rename_document" prediction_id (
      some (
        ("from", existing.document_name)
        ∷ ("to", cleaned)
        ∷ ("document_id", some existing.document_id)
        ∷ []))
  pure (existing.batch_id, updated)

unfoldable pub rename_document_db :
    Stamp → UserOut → String → Option String → Exec Db (String × PredictionOut)
rename_document_db stamp actor prediction_id document_name = do
  existing ← Repo.get prediction_id
  rename_row stamp actor prediction_id (clean_name document_name) existing

unfoldable pub record_prediction_db : Stamp → PredictionOut → String → Exec Db PredictionOut
record_prediction_db stamp prediction request_id = do
  saved ← Repo.create_idempotent stamp.now prediction
  record_entry stamp none "batch_state" prediction.batch_id (
      some (
        ("document_id", some prediction.document_id)
        ∷ ("request_id", some request_id)
        ∷ ("source", some "worker")
        ∷ []))
  pure saved

unfoldable pub batch_key : String → String
batch_key batch_id = "batches:" ++ batch_id

module _ (C : CacheBackend) (J : Codecs) where
  unfoldable pub record_prediction :
      Stamp → PredictionOut → String → Exec (World C.Store) PredictionOut
  unfolding record_prediction_db cache_clear batch_key
  record_prediction stamp prediction request_id = do
    saved ← on_db (record_prediction_db stamp prediction request_id)
    cache_clear C (batch_key prediction.batch_id)
    cache_clear C "batches:list"
    cache_clear C "predictions:recent"
    pure saved

  unfoldable pub list_recent :
      (List Prediction → List Prediction) → Exec (World C.Store) (List PredictionOut)
  unfolding cached_or
  list_recent newest_first =
      cached_or C "predictions:recent" 15 J.predictions.load J.predictions.dump
        (on_db (Repo.list_recent newest_first 50))

  unfoldable pub get : String → Exec (World C.Store) PredictionOut
  get prediction_id = on_db (Repo.get prediction_id)

  unfoldable pub list_paginated :
      (List Prediction → List Prediction)
      → ℕ
      → ℕ
      → Option PredictionLabel
      → Option String
      → Exec (World C.Store) (List PredictionOut)
  list_paginated newest_first page limit label_filter color_filter =
      on_db (Repo.list_paginated newest_first page limit label_filter color_filter)

  -- What the three edits do to the cache behind the edit of the tables, which gives the batch of the
  -- prediction too.
  unfoldable pub clear_after_edit :
      Exec Db (String × PredictionOut) → Exec (World C.Store) PredictionOut
  unfolding cache_clear batch_key
  clear_after_edit edit = do
    edited ← on_db edit
    cache_clear C (batch_key edited.0)
    cache_clear C "predictions:recent"
    pure edited.1

  unfoldable pub relabel :
      Stamp → UserOut → String → PredictionLabel → Exec (World C.Store) PredictionOut
  unfolding clear_after_edit relabel_db
  relabel stamp actor prediction_id new_label =
      clear_after_edit (relabel_db stamp actor prediction_id new_label)

  unfoldable pub add_comment :
      Stamp → UserOut → String → Option String → Option String → Exec (World C.Store) PredictionOut
  unfolding clear_after_edit add_comment_db
  add_comment stamp actor prediction_id comment comment_color =
      clear_after_edit (add_comment_db stamp actor prediction_id comment comment_color)

  unfoldable pub rename_document :
      Stamp → UserOut → String → Option String → Exec (World C.Store) PredictionOut
  unfolding clear_after_edit rename_document_db
  rename_document stamp actor prediction_id document_name =
      clear_after_edit (rename_document_db stamp actor prediction_id document_name)
