-- ===== src/Worker/Payload.antt =====
-- The payload of a job: how backend/app/infra/queue.py writes it, and how backend/worker/handler.py reads it.
use document_classifier.Prelude.{
  ◌≡◌, refl, Bool, true, ◌&&◌, List, [], ◌∷◌, String, str_eq, member, if◌then◌else◌,
}
use document_classifier.Exec.{Result, ok, err, value_error}
use document_classifier.Contracts.{ClassifyJob}

-- A value of a payload: a text, or something else.
pub data Value : Type 0 where
  text : String → Value
  other : Value

abbrev pub Payload : Type 0
Payload = List (String × Value)

-- `job.model_dump(mode="json")`
unfoldable pub model_dump : ClassifyJob → Payload
model_dump job =
    ("batch_id", text job.batch_id)
    ∷ ("document_id", text job.document_id)
    ∷ ("blob_key", text job.blob_key)
    ∷ ("request_id", text job.request_id)
    ∷ []

abbrev field_of : String → Payload → Result String
field_of name [] = err value_error
field_of name ((n, v) ∷ rest) =
    if str_eq n name then elim v [ text s ↦ ok s | other ↦ err value_error ] else field_of name rest

-- `extra="forbid"`
abbrev known_fields : Payload → Bool
known_fields [] = true
known_fields ((n, v) ∷ rest) =
    member n ("batch_id" ∷ "document_id" ∷ "blob_key" ∷ "request_id" ∷ []) && known_fields rest

-- `ClassifyJob(**payload)`: a ValidationError is a ValueError.
unfoldable pub job_of_payload : Payload → Result ClassifyJob
unfolding member
job_of_payload payload =
    if known_fields payload
    then elim (field_of "batch_id" payload) [
      | err e ↦ err e
      | ok batch_id ↦ elim (field_of "document_id" payload) [
        | err e ↦ err e
        | ok document_id ↦ elim (field_of "blob_key" payload) [
          | err e ↦ err e
          | ok blob_key ↦ elim (field_of "request_id" payload) [
            | err e ↦ err e
            | ok request_id ↦ ok (record {
              batch_id = batch_id;
              document_id = document_id;
              blob_key = blob_key;
              request_id = request_id;
            })
          ]
        ]
      ]
    ]
    else err value_error

pub job_of_payload-model_dump : (job : ClassifyJob) → job_of_payload (model_dump job) ≡ ok job
unfolding job_of_payload model_dump
job_of_payload-model_dump job = refl
