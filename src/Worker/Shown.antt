-- ===== src/Worker/Shown.antt =====
-- Overlays that the storage has, and the calls of a job under a schedule of failures.
use document_classifier.Prelude.{
  ◌≡◌, refl, ap, ◌∙◌, true, Option, some, none, List, [], ◌∷◌, String, arith, is_some, str_eq,
  eq_iff,
}
use document_classifier.Exec.{Result, ok, err, Exec}
use document_classifier.Exec.Hoare.{After}
use document_classifier.Ingest.{Fault, works, fails_before, fails_after}
use document_classifier.Blob.{
  Bytes, Object, put_at, find_object, object_key, partition, overlay_key, overlay_object, put,
  after_slash, after_slash-overlay_key, before_slash-overlay_key,
}
use document_classifier.Worker.Job.{Station, faulty, remote}
use document_classifier.Worker.Keeps.{Overlays}

-- Where `GET /predictions/{pid}/overlay` reads the overlay of a prediction.
abbrev pub Shown : List Object → Option String → Type 0
Shown objects none = Unit
Shown objects (some url) = is_some (find_object "overlays" (object_key url) objects) ≡ true

-- A put takes no object away.
pub Shown-cons :
    (o : Object) (objects : List Object) (url : Option String)
    → Shown objects url
    → Shown (o ∷ objects) url
unfolding find_object
Shown-cons o objects none h = tt
Shown-cons o objects (some url) h = ground arith

pub object_key-overlay_key :
    (batch_id document_id : String)
    → object_key (overlay_key batch_id document_id) ≡ overlay_object batch_id document_id
unfolding object_key
object_key-overlay_key batch_id document_id =
    ap
      (λ (o : Option String). elim o [ some rest ↦ rest | none ↦ overlay_key batch_id document_id ])
      (after_slash-overlay_key batch_id document_id)

pub partition-overlay_key :
    (batch_id document_id : String)
    → partition (overlay_key batch_id document_id)
      ≡ ("overlays", overlay_object batch_id document_id)
unfolding partition
partition-overlay_key batch_id document_id =
    ap
      (λ b.
        (b, elim (after_slash (overlay_key batch_id document_id)) [ some rest ↦ rest | none ↦ "" ]))
      (before_slash-overlay_key batch_id document_id)
    ∙ ap (λ (o : Option String). ("overlays", elim o [ some rest ↦ rest | none ↦ "" ]))
        (after_slash-overlay_key batch_id document_id)

pub put-overlay_key :
    (batch_id document_id : String) (content : Bytes) (objects : List Object)
    → put (overlay_key batch_id document_id) content objects ≡ (
      ok tt,
      record { bucket = "overlays"; key = overlay_object batch_id document_id; content = content }
          ∷ objects,
    )
unfolding put put_at
put-overlay_key batch_id document_id content objects =
    ap (λ (place : String × String). put_at place content objects)
      (partition-overlay_key batch_id document_id)

abbrev pub overlay_of : String → String → Bytes → Object
overlay_of batch_id document_id content = record {
  bucket = "overlays";
  key = overlay_object batch_id document_id;
  content = content;
}

-- What is put at the overlay's key is shown.
pub Shown-own :
    (batch_id document_id : String) (content : Bytes) (objects : List Object)
    → Shown
        (overlay_of batch_id document_id content ∷ objects)
        (some (overlay_key batch_id document_id))
unfolding find_object
Shown-own batch_id document_id content objects =
    let object = overlay_object batch_id document_id in
    let own : str_eq object object ≡ true = (eq_iff object object).1 refl in
    rw (object_key-overlay_key batch_id document_id) (ground arith)

-- Every prediction shows an overlay that is in the storage, or none.
pub record HasOverlays {Store : Type 0} (s : Station Store) : Type 0 where
  pub shown : Overlays (Shown s.objects) s.world.db

-- The same, and the overlay of the document is in the storage.
pub record IsUploaded {Store : Type 0} (batch_id document_id : String) (s : Station Store)
    : Type 0 where
  pub shown : Overlays (Shown s.objects) s.world.db
  pub uploaded : Shown s.objects (some (overlay_key batch_id document_id))

module _ {Store A : Type 0} (P : Station Store → Type 0) (Q : A → Station Store → Type 0)
    (free : (s : Station Store) (f : List Fault) → P s → P (record s { schedule = f }))
    (weak : (a : A) (s : Station Store) → Q a s → P s) (work : Exec (Station Store) A)
    (works_so : (s : Station Store) → P s → After P Q (work s)) where
  pub After-work : (x : Result A × Station Store) → After P Q x → P x.1
  After-work (ok a, s) h = weak a s h
  After-work (err e, s) h = h

  faulty-After : (faults : List Fault) (s : Station Store) → P s → After P Q (faulty faults work s)
  unfolding faulty
  faulty-After [] s h = works_so s h
  faulty-After (works ∷ f) s h = works_so (record s { schedule = f }) (free s f h)
  faulty-After (fails_before e ∷ f) s h = free s f h
  faulty-After (fails_after e ∷ f) s h =
      After-work (work (record s { schedule = f }))
        (works_so (record s { schedule = f }) (free s f h))

  pub remote-After : (s : Station Store) → P s → After P Q (remote work s)
  unfolding remote
  remote-After s h = faulty-After s.schedule s h
