-- ===== src/App.antt =====
-- The apps/zicade crate: how the program turns its configuration into routing, per request for
-- `pac`, and by network for the corporate-network gate.
pub mod Route
pub mod PacRouter
pub mod Build
pub mod OnCorp
pub mod Gate
pub mod Start
pub mod Cli
