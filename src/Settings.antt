-- ===== src/Settings.antt =====
-- The configuration cascade: models/config_platform.py of addons/mezze_bridge.
pub mod Catalog
pub mod Dict
pub mod Resolve
pub mod Cascade
pub mod User
pub mod Saved
pub mod Upsert
pub mod Choice
pub mod RoundTrip
pub mod Reset
mod Tests
