-- ===== src/Scripts/ConfigDocs.antt =====
-- scripts/generate_config_docs.py: the reference of the configuration and .env.example, generated from
-- the settings model. `json.dumps` is an argument.
pub mod Labels
pub mod Walk
pub mod Plain
pub mod Table
pub mod EnvExample
pub mod Document
