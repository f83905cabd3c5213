-- ===== src/Config.antt =====
-- internal/config: the kiosk's configuration and what is computed from it.
pub mod Clock
pub mod Kiosk
pub mod Pages
pub mod Conflicts
pub mod Rules
pub mod Inserts
