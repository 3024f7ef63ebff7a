-- ===== src/Access.antt =====
-- Who may call what: addons/mezze_bridge/domain/authz.py, signing_policy.py, models/api_nonce.py and the
-- security gate of controllers/main.py.
pub mod Authz
pub mod Routes
pub mod Roles
pub mod Integrity
pub mod Replay
pub mod Once
pub mod Signing
pub mod Rate
pub mod Gate
pub mod Enforce
pub mod Hits
mod Tests
