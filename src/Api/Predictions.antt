-- ===== src/Api/Predictions.antt =====
-- backend/app/api/routers/predictions.py and audit.py, in the session of their request. The storage is
-- none where it was not configured.
use document_classifier.Prelude.{
  ℕ, Bool, ◌&&◌, not, Option, none, some, List, [], ◌∷◌, String, leb, str_eq, if◌then◌else◌,
}
use document_classifier.Exec.{Result, ok, err, Exec, lift, or_raise, raise_if, ◌>>=◌, ◌>>◌, http}
use document_classifier.Contracts.{PredictionLabel, PredictionOut, AuditLogEntry}
use document_classifier.Db.{Prediction, AuditLog}
use document_classifier.Repositories.Audit
use document_classifier.Services.World.{CacheBackend, Codecs, World, on_db, in_session}
use document_classifier.Services.Audit.{Stamp}
use document_classifier.Services.Predictions as Service
use document_classifier.Blob.{Bytes, Object, get_object, object_key}
use document_classifier.Api.Deps.{AppState, Decoder, require_role}

-- `if not prediction.overlay_url`
unfoldable pub present : Option String → Option String
present none = none
present (some url) = if str_eq url "" then none else some url

-- The object of an overlay, whatever error the storage gives.
unfoldable pub read_overlay : List Object → String → Result Bytes
read_overlay objects raw = elim (get_object "overlays" (object_key raw) objects) [
  | ok content ↦ ok content
  | err _ ↦ err (http 404)
]

-- `Query(ge=1, le=…)`
unfoldable pub in_range : ℕ → ℕ → ℕ → Bool
in_range page limit most = leb 1 page && leb 1 limit && leb limit most

pub record DocumentUrl : Type 0 where
  pub overlay_url : Option String
  pub document_url : Option String

-- A link to the overlay, or none where the storage gives none.
unfoldable pub overlay_link :
    Option (String → String → Result String) → Option String → Option String
overlay_link none overlay_url = overlay_url
overlay_link (some presigned_get) overlay_url = elim (present overlay_url) [
  | none ↦ none
  | some url ↦ elim (presigned_get "overlays" (object_key url)) [
    | ok link ↦ some link
    | err _ ↦ none
  ]
]

module _ (C : CacheBackend) (J : Codecs) (app : AppState) (decode : Decoder)
    (auth_header : String) where
  unfoldable pub list_recent_endpoint :
      (List Prediction → List Prediction) → Exec (World C.Store) (List PredictionOut)
  list_recent_endpoint newest_first = in_session do
    on_db (require_role app decode auth_header ("read_batch" ∷ []))
    Service.list_recent C J newest_first

  unfoldable pub list_predictions_endpoint :
      (List Prediction → List Prediction)
      → ℕ
      → ℕ
      → Option PredictionLabel
      → Option String
      → Exec (World C.Store) (List PredictionOut)
  list_predictions_endpoint newest_first page limit label color = in_session do
    on_db (require_role app decode auth_header ("read_batch" ∷ []))
    raise_if (not (in_range page limit 500)) (http 422)
    Service.list_paginated C J newest_first page limit label color

  unfoldable pub relabel_endpoint :
      Stamp → String → PredictionLabel → Exec (World C.Store) PredictionOut
  unfolding in_session Service.relabel
  relabel_endpoint stamp pid new_label = in_session do
    current_user ← on_db (require_role app decode auth_header ("relabel_prediction" ∷ []))
    Service.relabel C J stamp current_user pid new_label

  unfoldable pub add_comment_endpoint :
      Stamp → String → Option String → Option String → Exec (World C.Store) PredictionOut
  add_comment_endpoint stamp pid comment comment_color = in_session do
    current_user ← on_db (require_role app decode auth_header ("add_comment" ∷ []))
    Service.add_comment C J stamp current_user pid comment comment_color

  unfoldable pub rename_document_endpoint :
      Stamp → String → Option String → Exec (World C.Store) PredictionOut
  rename_document_endpoint stamp pid document_name = in_session do
    current_user ← on_db (require_role app decode auth_header ("rename_document" ∷ []))
    Service.rename_document C J stamp current_user pid document_name

  unfoldable pub get_overlay_endpoint : Option (List Object) → String → Exec (World C.Store) Bytes
  unfolding in_session present read_overlay
  get_overlay_endpoint blob pid = in_session do
    on_db (require_role app decode auth_header ("read_batch" ∷ []))
    prediction ← Service.get C J pid
    raw ← or_raise (present prediction.overlay_url) (http 404)
    objects ← or_raise blob (http 503)
    lift (read_overlay objects raw)

  unfoldable pub get_document_url_endpoint :
      Option (String → String → Result String) → String → Exec (World C.Store) DocumentUrl
  unfolding overlay_link
  get_document_url_endpoint blob pid = in_session do
    on_db (require_role app decode auth_header ("read_batch" ∷ []))
    prediction ← Service.get C J pid
    lift (
        ok (record { overlay_url = overlay_link blob prediction.overlay_url; document_url = none }))

  unfoldable pub list_audit_endpoint :
      (List AuditLog → List AuditLog) → ℕ → ℕ → Exec (World C.Store) (List AuditLogEntry)
  list_audit_endpoint newest_first page limit = in_session do
    on_db (require_role app decode auth_header ("read_audit" ∷ []))
    raise_if (not (in_range page limit 200)) (http 422)
    on_db (Audit.list newest_first page limit)
