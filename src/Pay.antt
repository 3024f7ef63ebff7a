-- ===== src/Pay.antt =====
-- Tenders of an order: models/mezze_terminal_txn.py and models/mezze_payment_qr.py of
-- addons/mezze_bridge, over the orders and payments of Odoo's point of sale.
pub mod Ledger
pub mod Terminal
pub mod Settlement
pub mod Sound
pub mod TerminalLaws
pub mod Qr
pub mod QrLaws
pub mod Authority
mod Tests
