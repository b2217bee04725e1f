-- ===== src/Ui/Views.antt =====
-- crates/zicade-ui/src/views: what the pages show, without their drawing. `lower` is the library's
-- Unicode lower case, the text of a search field is an argument.
pub mod Connections
pub mod Logs
pub mod Search
pub mod Listed
use zicade_rs.Prelude.{◌||◌, Bool, true, false, Option, none, some, List, [], ◌∷◌, ◌++◌}
use zicade_rs.Text.{Str, text, decimal, trim, str_eq, starts_with}
use zicade_rs.Config.Model.{RoutingMode, UpstreamConfig, Config}

-- The `contains` of a text.
unfoldable pub contains_str : Str → Str → Bool
unfolding starts_with
contains_str needle [] = starts_with needle []
contains_str needle (c ∷ s) = let rest = contains_str needle s in starts_with needle (c ∷ s) || rest

abbrev pub is_empty : Str → Bool
is_empty [] = true
is_empty (c ∷ s) = false

abbrev pub upstream_sentence : Option UpstreamConfig → Str
upstream_sentence none = text "Through the upstream proxy"
upstream_sentence (some up) = text "Through " ++ (up.host ++ (text ":" ++ decimal up.port))

abbrev pub mode_sentence : RoutingMode → Option UpstreamConfig → Str
mode_sentence RoutingMode.direct up = text "Connecting to sites directly"
mode_sentence RoutingMode.upstream up = upstream_sentence up
mode_sentence RoutingMode.pac up = text "Routing each request with the PAC script"

abbrev pub corp_sentence : Option Bool → Str → Str
corp_sentence (some true) route = route ++ text ", on the corporate network"
corp_sentence (some false) route = text "Off the corporate network, so connecting directly"
corp_sentence none route = route

-- Of the redacted configuration and the status's `on_corp`.
unfoldable pub routing_sentence : Config → Option Bool → Str
routing_sentence config state =
    corp_sentence state (mode_sentence config.routing.mode config.routing.upstream)
