-- ===== src/Services/Interfaces.antt =====
-- backend/app/services/interfaces.py: what a service offers over the state of a request, and the services of
-- the application.
use document_classifier.Prelude.{ℕ, Option, List, String}
use document_classifier.Exec.{Exec}
use document_classifier.Contracts.{
  AuditLogEntry, BatchOut, Metadata, PredictionLabel, PredictionOut, Role, UserOut,
}
use document_classifier.Db.{User, Batch, Prediction, Db}
use document_classifier.Services.World.{CacheBackend, Codecs, World}
use document_classifier.Services.Audit.{Stamp, record_entry}
use document_classifier.Services.Users as Users
use document_classifier.Services.Batches as Batches
use document_classifier.Services.Predictions as Predictions

pub record UserService (S : Type 0) : Type 0 where
  pub get_me : String → Exec S UserOut
  pub list_users : Exec S (List UserOut)
  pub toggle_role : UserOut → String → Role → Exec S UserOut
  pub delete_user : UserOut → String → Exec S (Unit {0})

pub record BatchService (S : Type 0) : Type 0 where
  pub list_batches : Exec S (List BatchOut)
  pub get_batch : String → Exec S BatchOut

pub record PredictionService (S : Type 0) : Type 0 where
  pub record_prediction : PredictionOut → String → Exec S PredictionOut
  pub list_recent : Exec S (List PredictionOut)
  pub list_paginated : ℕ → ℕ → Option PredictionLabel → Option String → Exec S (List PredictionOut)
  pub get : String → Exec S PredictionOut
  pub relabel : UserOut → String → PredictionLabel → Exec S PredictionOut
  pub add_comment : UserOut → String → Option String → Option String → Exec S PredictionOut
  pub rename_document : UserOut → String → Option String → Exec S PredictionOut

-- `record` of the interface.
pub record AuditService (S : Type 0) : Type 0 where
  pub record_action : Option String → String → String → Option Metadata → Exec S AuditLogEntry

unfoldable pub audit_service : Stamp → AuditService Db
audit_service stamp = record { record_action = record_entry stamp }

module _ (C : CacheBackend) (J : Codecs) (stamp : Stamp) where
  unfoldable pub user_service : (List User → List User) → UserService (World C.Store)
  user_service by_email = record {
    get_me = Users.get_me C J;
    list_users = Users.list_users C J by_email;
    toggle_role = Users.toggle_role C J stamp;
    delete_user = Users.delete_user C J stamp;
  }

  unfoldable pub prediction_service :
      (List Prediction → List Prediction) → PredictionService (World C.Store)
  prediction_service newest_first = record {
    record_prediction = Predictions.record_prediction C J stamp;
    list_recent = Predictions.list_recent C J newest_first;
    list_paginated = Predictions.list_paginated C J newest_first;
    get = Predictions.get C J;
    relabel = Predictions.relabel C J stamp;
    add_comment = Predictions.add_comment C J stamp;
    rename_document = Predictions.rename_document C J stamp;
  }

unfoldable pub batch_service :
    (C : CacheBackend) → Codecs → (List Batch → List Batch) → BatchService (World C.Store)
batch_service C J newest_first = record {
  list_batches = Batches.list_batches C J newest_first;
  get_batch = Batches.get_batch C J;
}
