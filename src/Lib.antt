-- ===== src/Lib.antt =====
-- Zicade is a local HTTP proxy that forwards to an upstream proxy, authenticates to it for its clients
-- and chooses the route of each request from its configuration or a PAC script.
--
-- Parts, and the files that model them (paths from the repository's root):
-- - Auth.Handshake and Auth.Header: crates/zicade-auth/src, the Negotiate handshake machine
--   (`on_response`, `advance`) and the header values (`parse_proxy_authenticate`, `build_...`). The SSPI
--   authenticator is a step function on its own context, base64 a pair of functions with laws.
-- - Config: crates/zicade-config/src. Model has the schema and its defaults, Secrets the redaction and
--   the return of passwords (`without_secrets`, `keep_secrets_from`), Validate the checks with their
--   errors in the order of the source.
-- - Routing: crates/zicade-routing/src. Pac is the parser of PAC results, Resolver the policy on them.
-- - Proxy.Pool: crates/zicade-proxy/src/upstream/pool.rs and pool/prewarm.rs. The clock and the state
--   of the sockets are arguments; Registry has the pools of a routing snapshot, Prewarm the task.
-- - Proxy.Tracker: crates/zicade-proxy/src/tracker.rs and metrics.rs, one step for each call on a handle.
-- - Proxy.Tunnel: crates/zicade-proxy/src/tunnel.rs, the pumps and the classification of a close.
-- - Proxy.Driver, Proxy.Wire and Proxy.Connect: crates/zicade-proxy/src/upstream/auth.rs, wire.rs and
--   connect.rs. A socket is the bytes that come from it and the results of its writes. Connect runs the
--   driver and the pool's socket through the legs of a CONNECT.
-- - Proxy.Forward and Proxy.Service: crates/zicade-proxy/src/upstream.rs, http_forward.rs and counting.rs.
--   Forward is the handshake of a plain request on one connection to the upstream, Service what a request
--   is answered and which calls are made on its entry in Proxy.Tracker. hyper and the sockets enter as
--   records of functions, `HttpClient` and `Outside`.
-- - Proxy.Server: crates/zicade-proxy/src/server.rs, the accept loop, the connection tasks, the tunnels
--   that they detach, and the drain as a step relation.
-- - Win.Discovery: crates/zicade-win/src/winhttp/discovery.rs, the choice of a proxy from the user's
--   settings and the resolver of a static proxy; Wildcard and Urls say what it decides.
-- - Ui: crates/zicade-ui/src. Form is form_model.rs with the saving of views/config/mod.rs (Save) through
--   Control, LogBuffer is log_buffer.rs on top of Observe. Throughput is throughput.rs with the samples of
--   chart_model.rs, ConnectionRates is connection_rates.rs; a rate is of a type that is a parameter.
--   Views has what the pages of views/ list and say.
-- - App: apps/zicade/src. Route and Build have what routing.rs makes of the configuration, PacRouter the
--   router of pac_router.rs with its cache and its resolver thread (Resolver), OnCorp and Gate the
--   corporate-network gate of netmon/; Start is app.rs, how the program starts and how an
--   applied edit reaches the gate, and Cli is cli.rs.
-- - Control: crates/zicade-control/src, how an edit is applied: merged, validated, saved and made live.
-- - Observe: crates/zicade-observe/src/store.rs, the bounded ring of log events and the operations of
--   pushes that interleave; Layer is layer.rs
--   and event.rs, how an event of the tracing crate gets there.
-- Prelude and Text hold the shared helpers: tests on numbers, results, and `str` operations on lists of
-- code points. Tests holds concrete runs.
--
-- Numbers are natural; counters that wrap do so modulo their width. A handshake has twelve legs of fuel,
-- the source's own bound. A chunked body is drained with one round of fuel for each byte of input and one
-- more, which is enough since a round takes at least a byte; running out would be `none`.
--
-- Not modelled: the platform bindings of crates/zicade-win, serde and files, the drawing of the UI and the
-- floating-point arithmetic of its charts, and the glue of the program's entry.
pub mod Prelude
pub mod Text
pub mod Auth
pub mod Config
pub mod Routing
pub mod Proxy
pub mod App
pub mod Control
pub mod Observe
pub mod Win
pub mod Ui
pub mod Tests
