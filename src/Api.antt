-- ===== src/Api.antt =====
-- backend/app/api: who a request is from, what it may do, and what it does in its session.
pub mod Deps
pub mod Auth
pub mod Users
pub mod Access
pub mod Register
pub mod Predictions
pub mod Overlay
pub mod Batches
pub mod Scan
pub mod Upload
