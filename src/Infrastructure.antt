-- ===== src/Infrastructure.antt =====
-- infrastructure/: the adapters behind the domain's ports.
pub mod Breaker
pub mod Cache
pub mod PaymentGateway
pub mod Memory
pub mod Clients
pub mod Database
pub mod ReceiptStore
