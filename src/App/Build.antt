-- ===== src/App/Build.antt =====
-- apps/zicade/src/routing.rs: the routing that a configuration asks for. What the start
-- of the resolver thread of `pac` comes to is a
-- function of the configuration that it is for.
pub mod Valid
use zicade_rs.Prelude.{◌++◌, Option, some, Result, ok, err, ok_or, ◌>>=◌, map_option}
use zicade_rs.Text.{Str, text, decimal}
use zicade_rs.Auth.Header.{Base64}
use zicade_rs.Config.Model.{Config, RoutingMode, RoutingConfig, UpstreamConfig}
use zicade_rs.Proxy.Pool.Registry.{PoolHandle}
use zicade_rs.App.Route.{UpstreamTarget, build_auth, pool_config}
use zicade_rs.App.PacRouter.{Router, build_pac}

pub data Routing : Type 0 where
  direct : Routing
  upstream : UpstreamTarget → Routing
  pac : Router → Routing

module _ (b : Base64) where
  abbrev pub upstream_addr : UpstreamConfig → Str
  upstream_addr up = up.host ++ (text ":" ++ decimal up.port)

  -- The target of the configured upstream, with a pool of its own while pooling is on.
  abbrev pub upstream_target : RoutingConfig → UpstreamConfig → UpstreamTarget
  upstream_target routing up = record {
    addr = upstream_addr up;
    auth = build_auth b up.auth up.host;
    pool =
        map_option (λ config. record { serial = 0; addr = upstream_addr up; config = config })
          (pool_config routing.pool);
  }

  unfoldable pub build_upstream : RoutingConfig → Result Str Routing
  build_upstream routing =
      ok_or routing.upstream (text "routing.mode = upstream requires a [routing.upstream] section")
      >>= λ up. ok (upstream (upstream_target routing up))

  abbrev pub build_for_mode :
      Result Str (Unit {0}) → RoutingMode → RoutingConfig → Result Str Routing
  build_for_mode thread RoutingMode.direct routing = ok direct
  build_for_mode thread RoutingMode.upstream routing = build_upstream routing
  build_for_mode thread RoutingMode.pac routing =
      build_pac thread routing >>= λ router. ok (pac router)

  unfoldable pub build_routing : (Config → Result Str (Unit {0})) → Config → Result Str Routing
  build_routing thread config = build_for_mode (thread config) config.routing.mode config.routing
