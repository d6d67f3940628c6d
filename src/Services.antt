-- ===== src/Services.antt =====
-- services/: the use cases, which orchestrate the domain and the ports.
pub mod Command
pub mod PlaceOrder
pub mod GetReceipt
