-- ===== src/Scripts.antt =====
-- backend/scripts
pub mod Benchmark
