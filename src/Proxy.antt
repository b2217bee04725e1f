-- ===== src/Proxy.antt =====
-- crates/zicade-proxy: the data path of the proxy.
pub mod Pool
pub mod Tracker
pub mod Driver
pub mod Tunnel
pub mod Wire
pub mod Connect
pub mod Forward
pub mod Service
pub mod Server
