-- ===== src/Worker.antt =====
-- backend/worker/handler.py, with backend/app/infra/worker_prediction_service.py.
mod Labels
mod Job
pub mod Payload
pub mod Entry
pub mod Boot
pub mod Ready
pub mod Classes
pub mod Keeps
pub mod Shown
pub mod Overlays
pub mod Predicted
unfoldable pub use Labels.*
unfoldable pub use Job.*
