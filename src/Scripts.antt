-- ===== src/Scripts.antt =====
-- The scripts that guard the repository.
pub mod Contract
pub mod ConfigDocs
pub mod DocsUpdated
pub mod DocsFreshness
pub mod DocExamples
