-- ===== src/Observability/Logging.antt =====
-- observability/logging.py: what a record carries, and which handlers it reaches.
pub mod Event
pub mod Routing
