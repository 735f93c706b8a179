-- ===== src/Migrations.antt =====
-- backend/alembic: the migrations of the database's schema.
pub mod Catalog
pub mod Initial
pub mod Later
pub mod Rows
pub mod Models
pub mod Policy
pub mod Versions
pub mod Downgrade
pub mod Again
