-- ===== src/Classifier.antt =====
-- backend/app/classifier
pub mod StartupChecks
pub mod Predictor
pub mod Topk
pub mod Golden
