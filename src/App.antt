-- ===== src/App.antt =====
-- backend/app/main.py
pub mod Boot
pub mod Serving
pub mod Blobless
pub mod Requests
