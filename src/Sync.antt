-- ===== src/Sync.antt =====
-- Replication between the terminals and the cloud: controllers/sync.py of addons/mezze_bridge, with
-- the ledger of models/mezze_sync_applied.py.
pub mod Push
pub mod Ledger
pub mod Once
pub mod Progress
pub mod Blocked
pub mod Stock
pub mod Loyalty
pub mod Balance
pub mod Apply
pub mod Sale
pub mod Pull
pub mod Pages
pub mod Pulled
mod Tests
