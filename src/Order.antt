-- ===== src/Order.antt =====
-- The order lifecycle: domain/order_fsm.py and domain/order_guard.py of addons/mezze_bridge.
pub mod Fsm
pub mod Replay
pub mod Reach
pub mod Guard
mod Tests
