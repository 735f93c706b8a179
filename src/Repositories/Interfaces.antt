-- ===== src/Repositories/Interfaces.antt =====
-- backend/app/repositories/interfaces.py: what a repository offers over the state that it keeps, and the
-- repositories of the database. The keys and times that these draw, and the orders of their statements,
-- are arguments.
use document_classifier.Prelude.{ℕ, Option, some, List, String}
use document_classifier.Exec.{Exec, gets}
use document_classifier.Uuid.{Uuid}
use document_classifier.Contracts.{
  AuditLogEntry, BatchOut, BatchStatus, DocumentOut, Metadata, PredictionLabel, PredictionOut, Role,
  UserOut,
}
use document_classifier.Db.{User, Batch, Prediction, AuditLog, Db}
use document_classifier.Repositories.Users as Users
use document_classifier.Repositories.Batches as Batches
use document_classifier.Repositories.Documents as Documents
use document_classifier.Repositories.Predictions as Predictions
use document_classifier.Repositories.Audit as Audit

pub record UserRepository (S : Type 0) : Type 0 where
  pub create_user : String → String → Role → Exec S UserOut
  pub get : String → Exec S UserOut
  pub get_by_email : String → Exec S (Option UserOut)
  pub list_users : Exec S (List UserOut)
  pub update_role : String → Role → Exec S UserOut
  pub count_admins : Exec S ℕ
  pub delete : String → Exec S (Unit {0})

pub record BatchRepository (S : Type 0) : Type 0 where
  pub list_batches : Exec S (List BatchOut)
  pub get : String → Exec S BatchOut
  pub update_status : String → BatchStatus → Exec S BatchOut

pub record DocumentRepository (S : Type 0) : Type 0 where
  pub ensure_for_ingest : String → String → String → Exec S DocumentOut

pub record PredictionRepository (S : Type 0) : Type 0 where
  pub create_idempotent : PredictionOut → Exec S PredictionOut
  pub list_recent : ℕ → Exec S (List PredictionOut)
  pub list_paginated : ℕ → ℕ → Option PredictionLabel → Option String → Exec S (List PredictionOut)
  pub get : String → Exec S PredictionOut
  pub update_label : String → PredictionLabel → Exec S PredictionOut
  pub update_comment : String → Option String → Option String → Exec S PredictionOut
  pub update_name : String → Option String → Exec S PredictionOut

pub record AuditRepository (S : Type 0) : Type 0 where
  pub insert : String → String → String → Option Metadata → Exec S AuditLogEntry
  pub list : ℕ → ℕ → Exec S (List AuditLogEntry)

unfoldable pub user_repository : Uuid → ℕ → (List User → List User) → UserRepository Db
user_repository id now by_email = record {
  create_user = Users.create_user id now;
  get = Users.get;
  get_by_email = Users.get_by_email;
  list_users = Users.list_users by_email;
  update_role = Users.update_role;
  count_admins = gets Users.count_admins;
  delete = Users.delete;
}

unfoldable pub batch_repository : (List Batch → List Batch) → BatchRepository Db
batch_repository newest_first = record {
  list_batches = Batches.list_batches newest_first;
  get = Batches.get;
  update_status = Batches.update_status;
}

unfoldable pub document_repository : ℕ → DocumentRepository Db
document_repository now = record { ensure_for_ingest = Documents.ensure_for_ingest now }

unfoldable pub prediction_repository :
    ℕ → (List Prediction → List Prediction) → PredictionRepository Db
prediction_repository now newest_first = record {
  create_idempotent = Predictions.create_idempotent now;
  list_recent = Predictions.list_recent newest_first;
  list_paginated = Predictions.list_paginated newest_first;
  get = Predictions.get;
  update_label = Predictions.update_label;
  update_comment = Predictions.update_comment;
  update_name = Predictions.update_name;
}

unfoldable pub audit_repository : Uuid → ℕ → (List AuditLog → List AuditLog) → AuditRepository Db
audit_repository id now newest_first = record {
  insert = λ actor_id. Audit.insert id now (some actor_id);
  list = Audit.list newest_first;
}
