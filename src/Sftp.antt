-- ===== src/Sftp.antt =====
-- backend/app/infra/sftp.py
pub mod Client
pub mod Walk
pub mod Tree
pub mod Move
