-- ===== src/Config.antt =====
-- crates/zicade-config: the schema (`Model`), the passwords that the UI never sees (`Secrets`),
-- and validation (`Validate`). Serde's reading and writing of JSON is not modelled.
pub mod Model
pub mod Secrets
pub mod Validate
