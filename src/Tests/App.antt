-- ===== src/Tests/App.antt =====
-- The gate and the PAC router on concrete configurations.
use zicade_rs.Prelude.{ℕ, ◌≡◌, refl, ◌∷◌, [], List, some, ok, Result, true}
use zicade_rs.Text.{text}
use zicade_rs.Config.Model.{
  Config, default_config, default_routing, default_corp_network, default_pac, RoutingConfig,
}
use zicade_rs.Routing.Pac.{PacResult}
use zicade_rs.Routing.Resolver.{decide, RoutingError}
use zicade_rs.App.Gate.{Call, look, configure}
use zicade_rs.App.PacRouter.{answered, to_route_choice}
use zicade_rs.App.PacRouter.Policy.{as_choice, to_route_choice-decide}
use zicade_rs.App.PacRouter.Cache.{Request}
use zicade_rs.Tests.Data.{shifting}

-- Routings by number: 0 is `Direct`, 1 the configured routing.
abbrev rebuild : Config → ℕ
rebuild config = 1

abbrev gated : Config
gated = record default_config {
  routing = record default_routing {
    corp_network =
        some (record default_corp_network { enabled = true; dns_suffixes = text "ad.org" ∷ [] });
  };
}

abbrev at_home : Call
at_home = look (text "home.lan" ∷ [])

abbrev before : List Call
before = look (text "ad.org" ∷ []) ∷ configure default_config [] ∷ configure gated [] ∷ []

abbrev by_pac : RoutingConfig
by_pac = record default_routing { pac = some default_pac }

abbrev found_proxy : Result RoutingError PacResult
found_proxy = ok (PacResult.proxy (text "gw") 8080)

to_route_choice-decide_example :
    to_route_choice shifting found_proxy by_pac
    ≡ as_choice shifting (decide default_pac found_proxy)
to_route_choice-decide_example = to_route_choice-decide shifting by_pac default_pac found_proxy refl

abbrev in_between : List Request
in_between =
    record { now = 3; later = 4; reply = answered (ok PacResult.direct); url = text "v" } ∷ []
