-- ===== src/Storage.antt =====
-- internal/storage
pub mod Chronometer
pub mod Engine
