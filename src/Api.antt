-- ===== src/Api.antt =====
-- api/: the HTTP contract, its mapping to the services, and the answers to errors.
pub mod Schemas
pub mod Errors
pub mod Health
pub mod Orders
pub mod Middleware
pub mod Deps
