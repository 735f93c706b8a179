-- ===== src/Api/Overlay.antt =====
-- The overlays that the worker stores are the ones that the API serves.
use document_classifier.Prelude.{
  ◌≡◌, ◌∙◌, ap, ◌≢◌, refl, true, eq_iff, subst, false, some, List, [], ◌∷◌, String, arith, inl, inr,
  str_eq, Bool-cases,
}
use document_classifier.Exec.{ok}
use document_classifier.Contracts.{PredictionOut, UserOut}
use document_classifier.Repositories.Predictions as Repo
use document_classifier.Repositories.Predictions.Edits.{db-get}
use document_classifier.Services.World.{World, CacheBackend, Codecs, in_session, settle}
use document_classifier.Services.Predictions as Service
use document_classifier.Blob.{
  Bytes, Object, find_object, get_object, object_key, put, overlay_key, overlay_object,
  before_slash, before_slash-overlay_key,
}
use document_classifier.Worker.Shown.{object_key-overlay_key, put-overlay_key}
use document_classifier.Api.Deps.{AppState, Decoder, require_role}
use document_classifier.Api.Access.{db-require_role}
use document_classifier.Api.Predictions.{present, read_overlay, get_overlay_endpoint}

nothing_before : before_slash "" ≢ "overlays"
unfolding before_slash
nothing_before e = let k = (eq_iff (before_slash "") "overlays").1 e in ground arith

overlay_key_given :
    (batch_id document_id : String) → str_eq (overlay_key batch_id document_id) "" ≡ false
overlay_key_given batch_id document_id =
    elim (Bool-cases (str_eq (overlay_key batch_id document_id) "")) [
      | inr given ↦ given
      | inl empty ↦
          let same : overlay_key batch_id document_id ≡ "" = (eq_iff _ _).0 empty in
          let bucket = before_slash-overlay_key batch_id document_id in
          let none_before : before_slash "" ≡ "overlays" =
            subst (λ t. before_slash t ≡ "overlays") same bucket in
          absurd (nothing_before none_before)
    ]

-- What the worker has put is found below the bucket of the overlays.
find_object-put :
    (batch_id document_id : String) (content : Bytes) (objects : List Object)
    → find_object "overlays"
        (overlay_object batch_id document_id)
        (put (overlay_key batch_id document_id) content objects).1
      ≡ some content
unfolding find_object
find_object-put batch_id document_id content objects =
    let object = overlay_object batch_id document_id in
    let own : str_eq object object ≡ true = (eq_iff object object).1 refl in
    rw (put-overlay_key batch_id document_id content objects) (ground arith)

module _ (C : CacheBackend) (J : Codecs) (app : AppState) (decode : Decoder)
    (header pid batch_id document_id : String) (w : World C.Store) (user : UserOut)
    (prediction : PredictionOut) (content : Bytes) (objects : List Object)
    (allowed : (require_role app decode header ("read_batch" ∷ []) w.db).0 ≡ ok user)
    (read : (Repo.get pid w.db).0 ≡ ok prediction)
    (named : prediction.overlay_url ≡ some (overlay_key batch_id document_id)) where
  abbrev pub stored : List Object
  stored = (put (overlay_key batch_id document_id) content objects).1

  served :
      find_object "overlays" (object_key (overlay_key batch_id document_id)) stored ≡ some content
      → str_eq (overlay_key batch_id document_id) "" ≡ false
      → get_overlay_endpoint C J app decode header (some stored) pid w ≡ (ok content, w)
  unfolding get_overlay_endpoint in_session settle present read_overlay get_object Service.get
  served found given =
      ground (arith, db-require_role app decode header ("read_batch" ∷ []) w.db, db-get pid w.db)

  -- Once the worker has put the overlay of a document into the storage, under the key that it
  -- also writes into the prediction, a request that may read, for a prediction with that key, gets
  -- those bytes, and changes nothing, whatever else was stored before.
  pub get_overlay_serves :
      get_overlay_endpoint C J app decode header (some stored) pid w ≡ (ok content, w)
  get_overlay_serves =
      served
        (ap (λ k. find_object "overlays" k stored) (object_key-overlay_key batch_id document_id)
          ∙ find_object-put batch_id document_id content objects)
        (overlay_key_given batch_id document_id)
