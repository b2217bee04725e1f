-- ===== src/Tests.antt =====
-- Concrete runs of the code and of the theorems about it.
pub mod Data
mod Auth
mod Config
mod Routing
mod Pool
mod Tracker
mod Upstream
mod App
mod Control
mod Forward
mod Ui
mod Win
