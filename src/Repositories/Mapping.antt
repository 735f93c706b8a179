-- ===== src/Repositories/Mapping.antt =====
-- backend/app/repositories/_mapping.py: rows to domain models.
use document_classifier.Prelude.{ℕ, Option, none, some, List, [], ◌∷◌, String}
use document_classifier.Exec.{Result, ok, err, lookup_error, Exec, or_raise}
use document_classifier.Uuid.{uuid_to_str}
use document_classifier.Contracts.{
  UserOut, BatchOut, DocumentOut, PredictionOut, AuditLogEntry, PredictionLabel, role_of_value,
  status_of_value, label_of_value, label_value,
}
use document_classifier.Db.{User, Batch, Document, Prediction, AuditLog}

-- Chains of results.
infixl 5 ◌>>=◌
abbrev ◌>>=◌ {ℓ κ} : {A : Type ℓ} {B : Type κ} → Result A → (A → Result B) → Result B
ok a >>= f = f a
err e >>= f = err e

unfoldable pub user_to_domain : User → Result UserOut
user_to_domain user = do
  role ← role_of_value user.role
  ok (record {
    id = uuid_to_str user.id;
    email = user.email;
    role = role;
    is_active = user.is_active;
    created_at = user.created_at;
  })

unfoldable pub batch_to_domain : Batch → Result BatchOut
batch_to_domain batch = do
  status ← status_of_value batch.status
  ok (record {
    id = uuid_to_str batch.id;
    status = status;
    document_count = batch.document_count;
    created_at = batch.created_at;
  })

unfoldable pub document_to_domain : Document → DocumentOut
document_to_domain document = record {
  id = uuid_to_str document.id;
  batch_id = uuid_to_str document.batch_id;
  blob_key = document.blob_key;
  created_at = document.created_at;
}

-- The list comprehension of `prediction_to_domain`.
unfoldable pub top5_to_domain : List (String × ℕ) → Result (List (PredictionLabel × ℕ))
top5_to_domain [] = ok []
top5_to_domain ((text, confidence) ∷ rest) = do
  label ← label_of_value text
  labels ← top5_to_domain rest
  ok ((label, confidence) ∷ labels)

unfoldable pub prediction_to_domain : Prediction → Result PredictionOut
prediction_to_domain prediction = do
  top5 ← top5_to_domain prediction.top5
  label ← label_of_value prediction.label
  ok (record {
    id = uuid_to_str prediction.id;
    batch_id = uuid_to_str prediction.batch_id;
    document_id = uuid_to_str prediction.document_id;
    label = label;
    top1_confidence = prediction.top1_confidence;
    top5 = top5;
    overlay_url = prediction.overlay_url;
    model_version = prediction.model_version;
    created_at = some prediction.created_at;
    latency_ms = prediction.latency_ms;
    comment = prediction.comment;
    comment_color = prediction.comment_color;
    document_name = prediction.document_name;
  })

unfoldable pub prediction_top5_to_json : List (PredictionLabel × ℕ) → List (String × ℕ)
prediction_top5_to_json [] = []
prediction_top5_to_json ((label, confidence) ∷ rest) =
    (label_value label, confidence) ∷ prediction_top5_to_json rest

unfoldable pub audit_log_to_domain : AuditLog → Option String → AuditLogEntry
audit_log_to_domain audit_log actor_email = record {
  id = uuid_to_str audit_log.id;
  actor_id = elim audit_log.actor_id [ none ↦ "" | some a ↦ uuid_to_str a ];
  actor_email = actor_email;
  action = audit_log.action;
  target = audit_log.target;
  metadata = audit_log.metadata;
  timestamp = audit_log.timestamp;
}

unfoldable pub require_row {ℓ κ} : {S : Type ℓ} {T : Type κ} → Option T → Exec S T
require_row row = or_raise row lookup_error
