-- ===== src/Domain.antt =====
-- domain/: the order aggregate, payments and receipts, free of transport and storage.
pub mod Order
pub mod Ports
pub mod Receipt
