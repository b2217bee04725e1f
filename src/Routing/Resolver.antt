-- ===== src/Routing/Resolver.antt =====
-- crates/zicade-routing/src/resolver.rs and error.rs: the route of a request, from a PAC lookup.
-- The backend is another component's (WinHTTP) and enters as its `resolve`.
use zicade_rs.Prelude.{err, ok, ◌++◌, Result}
use zicade_rs.Text.{text, Str}
use zicade_rs.Config.Model.{FailPolicy, PacConfig, UpstreamConfig}
use zicade_rs.Routing.Pac.{PacResult}

pub data RoutingError : Type 0 where
  backend : Str → RoutingError
  unsupported_platform : RoutingError

-- The `Display` texts that `thiserror` derives.
unfoldable pub describe_routing_error : RoutingError → Str
describe_routing_error (backend why) = text "PAC backend resolution failed: " ++ why
describe_routing_error unsupported_platform = text "unsupported platform (not Windows)"

pub data RouteDecision : Type 0 where
  direct : RouteDecision
  upstream : UpstreamConfig → RouteDecision

abbrev pub on_failure : FailPolicy → RoutingError → Result RoutingError RouteDecision
on_failure FailPolicy.error e = err e
on_failure FailPolicy.direct e = ok RouteDecision.direct

abbrev pub decide : PacConfig → Result RoutingError PacResult → Result RoutingError RouteDecision
decide pac (ok PacResult.direct) = ok RouteDecision.direct
decide pac (ok (PacResult.proxy host port)) =
    ok (RouteDecision.upstream (record { host = host; port = port; auth = pac.auth }))
decide pac (err e) = on_failure pac.fail_policy e

-- `RouteResolver::route`.
unfoldable pub route :
    PacConfig → (Str → Result RoutingError PacResult) → Str → Result RoutingError RouteDecision
route pac resolve url = decide pac (resolve url)
