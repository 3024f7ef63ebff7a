-- ===== src/Outbox.antt =====
-- The transactional outbox: domain/outbox.py and models/outbox_event.py of addons/mezze_bridge.
pub mod Policy
pub mod Backoff
pub mod Store
pub mod Ordered
pub mod Claim
pub mod Publish
pub mod Settle
pub mod Dispatch
pub mod Traces
mod Tests
