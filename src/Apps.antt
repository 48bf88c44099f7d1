-- ===== src/Apps.antt =====
-- The programs, apps.
pub mod Gateway
pub mod Simulator
