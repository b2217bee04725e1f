-- ===== src/App/PacRouter/Policy.antt =====
-- The router's choice is that of the PAC resolver's own policy.
use zicade_rs.Config.Model.{pac_upstream}
use zicade_rs.Prelude.{some, ◌++◌, Result, ok, err, ◌≡◌, refl}
use zicade_rs.Text.{Str, text}
use zicade_rs.Routing.Pac.{PacResult}
use zicade_rs.Routing.Resolver.{
  RouteDecision, RoutingError, decide, on_failure, describe_routing_error,
}
use zicade_rs.App.PacRouter.{
  PacConfig, RoutingConfig, FailPolicy, Base64, RouteChoice, to_route_choice, target_of,
  failed_choice,
}

module _ (b : Base64) where
  -- A decision as the proxy takes it.
  abbrev pub choice_of : RouteDecision → RouteChoice
  choice_of RouteDecision.direct = RouteChoice.direct
  choice_of (RouteDecision.upstream up) = RouteChoice.upstream (target_of b up.host up.port up)

  abbrev pub as_choice : Result RoutingError RouteDecision → Result Str RouteChoice
  as_choice (ok d) = ok (choice_of d)
  as_choice (err e) = err (text "PAC resolution failed: " ++ describe_routing_error e)

  failed :
      (policy : FailPolicy) (e : RoutingError)
      → failed_choice policy e ≡ as_choice (on_failure policy e)
  failed FailPolicy.error e = refl
  failed FailPolicy.direct e = refl

  -- With a `[routing.pac]` section the router decides on every lookup, failed ones included, as
  -- `RouteResolver::route` does on that section: the upstream is the resolved host and port with the
  -- section's auth, made for the resolved host, and `failPolicy` decides on an error.
  pub to_route_choice-decide :
      (routing : RoutingConfig) (p : PacConfig) (resolved : Result RoutingError PacResult)
      → routing.pac ≡ some p
      → to_route_choice b resolved routing ≡ as_choice (decide p resolved)
  unfolding to_route_choice pac_upstream
  to_route_choice-decide routing p (ok PacResult.direct) e = refl
  to_route_choice-decide routing p (ok (PacResult.proxy host port)) e = rw e
  to_route_choice-decide routing p (err why) e = rw e (failed p.fail_policy why)
