-- ===== src/Tender.antt =====
-- Paying an order at the till: `order_pay` of addons/mezze_bridge/controllers/main.py with its
-- policies for devices, references and duplicates and for the credit of a customer account.
pub mod Policy
pub mod Credit
pub mod Pay
pub mod Booked
pub mod Keys
pub mod Limits
mod Tests
