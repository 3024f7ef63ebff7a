-- ===== src/Guest.antt =====
-- Guests before they have an order: addons/mezze_bridge/models/reservation.py and waitlist.py.
pub mod Reservation
pub mod Waitlist
pub mod Lifecycle
pub mod Queue
mod Tests
