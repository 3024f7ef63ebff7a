-- ===== src/Receipt.antt =====
-- Receipts: domain/escpos.py of addons/mezze_bridge, and the printer that reads its bytes.
pub mod Escpos
pub mod Printer
pub mod Printed
pub mod Width
mod Tests
