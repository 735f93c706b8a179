-- ===== src/Blob.antt =====
-- backend/app/infra/worker_blob.py and blob.py: objects by bucket and key. The server keeps what is put;
-- a bucket that was not made at the start is an error.

use Prim.Native.String.{◌++◌}
use text.Mathlib.TextLemmas.{nil-append, cons-append}
use document_classifier.Prelude.{
  ℕ, ◌≡◌, refl, Bool, ◌&&◌, ◌||◌, Option, none, some, List, [], ◌∷◌, String, code, ◌==◌, str_eq,
  if◌then◌else◌, arith, ap, ◌∙◌, Bool-cases, inl, inr,
}
use document_classifier.Exec.{Result, ok, err, Exec, other_error}

abbrev pub Bytes : Type 0
Bytes = List ℕ

pub record Object : Type 0 where
  pub bucket : String
  pub key : String
  pub content : Bytes

unfoldable pub find_object : String → String → List Object → Option Bytes
find_object bucket key [] = none
find_object bucket key (o ∷ objects) =
    if str_eq o.bucket bucket && str_eq o.key key
    then some o.content
    else find_object bucket key objects

unfoldable pub get_object : String → String → List Object → Result Bytes
get_object bucket key objects = elim (find_object bucket key objects) [
  | some content ↦ ok content
  | none ↦ err other_error
]

-- What stands before the first `/` of a text, and behind it where there is one.
unfoldable pub before_slash : String → String
before_slash String.[] = ""
before_slash (String.◌∷◌ c s) =
    let rest = before_slash s in if code c == 47 then "" else String.◌∷◌ c rest

unfoldable pub after_slash : String → Option String
after_slash String.[] = none
after_slash (String.◌∷◌ c s) = let rest = after_slash s in if code c == 47 then some s else rest

-- `bucket, _, obj_key = key.partition("/")`: without a `/` the rest is empty.
unfoldable pub partition : String → String × String
unfolding before_slash after_slash
partition key = (before_slash key, elim (after_slash key) [ some rest ↦ rest | none ↦ "" ])

-- `raw.split("/", 1)[-1]`
unfoldable pub object_key : String → String
unfolding after_slash
object_key raw = elim (after_slash raw) [ some rest ↦ rest | none ↦ raw ]

-- `_ensure_buckets`
abbrev pub known_bucket : String → Bool
known_bucket bucket = str_eq bucket "documents" || str_eq bucket "overlays"

-- `put_object(bucket, obj_key, …)`
unfoldable pub put_at : String × String → Bytes → Exec (List Object) (Unit {0})
put_at (bucket, obj_key) content objects =
    if known_bucket bucket
    then (ok tt, record { bucket = bucket; key = obj_key; content = content } ∷ objects)
    else (err other_error, objects)

-- `WorkerBlob.put`
unfoldable pub put : String → Bytes → Exec (List Object) (Unit {0})
unfolding partition put_at
put key content objects = put_at (partition key) content objects

-- `WorkerBlob.get`
unfoldable pub get : String → Exec (List Object) Bytes
get key objects = (get_object "documents" key objects, objects)

-- The worker's `overlay_key`.
unfoldable pub overlay_key : String → String → String
overlay_key batch_id document_id = "overlays/" ++ (batch_id ++ ("/" ++ (document_id ++ ".png")))

-- A text that ends in its first `/`, and what stands behind it.
after_slash-append : (p s : String) → after_slash p ≡ some "" → after_slash (p ++ s) ≡ some s
unfolding after_slash
after_slash-append String.[] s h = absurd (ground arith)
after_slash-append (String.◌∷◌ c p) s h = rw (cons-append c p s) (elim (Bool-cases (code c == 47)) [
  | inl slash ↦
      let e : p ≡ "" = ground arith in
      let n : p ++ s ≡ s = ap (λ q. q ++ s) e ∙ nil-append s in ground arith
  | inr other ↦ ground (arith, after_slash-append p s)
])

before_slash-append :
    (p s : String) → after_slash p ≡ some "" → before_slash (p ++ s) ≡ before_slash p
unfolding after_slash before_slash
before_slash-append String.[] s h = absurd (ground arith)
before_slash-append (String.◌∷◌ c p) s h =
    rw (cons-append c p s) (elim (Bool-cases (code c == 47)) [
      | inl slash ↦ ground arith
      | inr other ↦ ground (arith, before_slash-append p s)
    ])

-- The key below the bucket.
abbrev pub overlay_object : String → String → String
overlay_object batch_id document_id = batch_id ++ ("/" ++ (document_id ++ ".png"))

pub after_slash-overlay_key :
    (batch_id document_id : String)
    → after_slash (overlay_key batch_id document_id) ≡ some (overlay_object batch_id document_id)
unfolding after_slash overlay_key
after_slash-overlay_key batch_id document_id =
    after_slash-append "overlays/" (overlay_object batch_id document_id) refl

pub before_slash-overlay_key :
    (batch_id document_id : String) → before_slash (overlay_key batch_id document_id) ≡ "overlays"
unfolding before_slash after_slash overlay_key
before_slash-overlay_key batch_id document_id =
    before_slash-append "overlays/" (overlay_object batch_id document_id) refl
