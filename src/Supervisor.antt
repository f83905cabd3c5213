-- ===== src/Supervisor.antt =====
-- internal/supervisor: keeping the kiosk browser alive and on the right page.
pub mod Window
pub mod Recovery
pub mod Watchdog
pub mod Heartbeat
pub mod Schedule
pub mod Tabs
pub mod Maintenance
