-- ===== src/Ui.antt =====
-- The crates/zicade-ui crate: the models behind the views.
pub mod Form
pub mod LogBuffer
pub mod Throughput
pub mod Views
pub mod ConnectionRates
