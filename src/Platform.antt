-- ===== src/Platform.antt =====
-- src/platform: alerts and metrics.
pub mod Alerts
pub mod Metrics
pub mod Dashboard
