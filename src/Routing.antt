-- ===== src/Routing.antt =====
-- The crates/zicade-routing crate: the proxy that a PAC result names, and the route of a request.
pub mod Pac
pub mod Resolver
