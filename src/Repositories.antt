-- ===== src/Repositories.antt =====
-- backend/app/repositories: the statements that each repository makes on the tables of one session.
pub mod Mapping
pub mod Users
pub mod Batches
pub mod Documents
pub mod Predictions
pub mod Audit
pub mod Interfaces
