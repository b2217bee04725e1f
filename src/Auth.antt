-- ===== src/Auth.antt =====
-- crates/zicade-auth: the Negotiate handshake and the proxy-auth headers.
pub mod Handshake
pub mod Header
