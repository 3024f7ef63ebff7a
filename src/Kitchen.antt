-- ===== src/Kitchen.antt =====
-- The kitchen display's tickets: addons/mezze_bridge/models/kds_ticket.py.
pub mod Ticket
pub mod Flow
pub mod Touches
pub mod Cascade
mod Tests
