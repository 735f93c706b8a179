-- ===== src/Db.antt =====
-- The tables of backend/app/db/models.py.
mod Table
mod Models
mod Finding
mod Counting
unfoldable pub use Table.*
unfoldable pub use Models.*
pub use Finding.*
pub use Counting.*
