-- ===== src/Services.antt =====
-- backend/app/services. A service works on the session's tables and on the cache.
pub mod World
pub mod Cache
pub mod Audit
pub mod Users
pub mod Batches
pub mod Predictions
pub mod Interfaces
