-- ===== src/Tests.antt =====
-- The theorems at concrete inputs, and runs of the code.
mod Orders
mod Breaker
mod Gateway
mod Receipts
mod Requests
mod Startup
mod Assembled
mod Console
mod Persistence
mod Scripts
mod ConfigDocs
mod Examples
mod Telemetry
mod Redaction
mod Cache
mod Database
