-- ===== src/Delivery.antt =====
-- Deliveries and their couriers: addons/mezze_bridge/models/delivery.py.
pub mod Dispatch
pub mod Moves
pub mod Cash
mod Tests
