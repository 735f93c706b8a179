-- ===== src/Ingest.antt =====
-- backend/sftp_ingest: files of the SFTP server become documents, jobs and blobs.
mod Validation
mod State
mod Processor
pub mod Invariant
pub mod Served
pub mod Poll
pub mod Delivery
pub mod Start
unfoldable pub use Validation.*
unfoldable pub use State.*
unfoldable pub use Processor.*
