-- ===== src/Ui/Form/Tidy.antt =====
-- The configurations that the form can show and give back.
use zicade_rs.Prelude.{not, ◌&&◌, ◌≡◌, ◌≢◌, ◌<◌, [], Option, none, some, All, if◌then◌else◌}
use zicade_rs.Text.{Str, trim, Lacks}
use zicade_rs.Config.Model.{
  Config, RoutingMode, AuthConfig, UpstreamConfig, PacConfig, CorpNetworkConfig,
}
use zicade_rs.Ui.Form.{u16_modulus, u64_modulus, is_suffix_separator, is_nil}

-- An optional text that is there is neither blank nor padded.
abbrev pub IsTidy : Option Str → Type 0
IsTidy none = Unit
IsTidy (some s) = (s ≢ []) × (trim s ≡ s)

pub record IsTidyAuth (a : AuthConfig) : Type 0 where
  pub username : IsTidy a.username
  pub password : IsTidy a.password

-- What the form needs of the sections that it emits.
pub record IsTidyUpstream (u : UpstreamConfig) : Type 0 where
  pub host : trim u.host ≡ u.host
  pub port_set : u.port ≢ 0
  pub port : u.port < u16_modulus
  pub auth : IsTidyAuth u.auth

pub record IsTidyPac (p : PacConfig) : Type 0 where
  pub path : IsTidy p.path
  pub url : IsTidy p.url
  pub auth : IsTidyAuth p.auth

abbrev pub IsTidySuffix : Str → Type 0
IsTidySuffix s = (s ≢ []) × (trim s ≡ s) × Lacks is_suffix_separator s

pub record IsTidyCorp (c : CorpNetworkConfig) : Type 0 where
  pub dns_suffixes : All IsTidySuffix c.dns_suffixes
  pub poll : c.poll_seconds < u64_modulus

abbrev pub IsTidyMode : RoutingMode → Option UpstreamConfig → Option PacConfig → Type 0
IsTidyMode RoutingMode.direct u p = Unit
IsTidyMode RoutingMode.upstream none p = ⊥
IsTidyMode RoutingMode.upstream (some u) p = IsTidyUpstream u
IsTidyMode RoutingMode.pac u none = ⊥
IsTidyMode RoutingMode.pac u (some p) = IsTidyPac p

abbrev pub IsTidyGate : Option CorpNetworkConfig → Type 0
IsTidyGate none = Unit
IsTidyGate (some c) = IsTidyCorp c

-- Its mode's section is there, its texts are trimmed, its numbers are of their types.
pub record IsTidyConfig (c : Config) : Type 0 where
  pub host : trim c.listen.host ≡ c.listen.host
  pub port : c.listen.port < u16_modulus
  pub section : IsTidyMode c.routing.mode c.routing.upstream c.routing.pac
  pub gate : IsTidyGate c.routing.corp_network
  pub level : trim c.logging.level ≡ c.logging.level
  pub format : trim c.logging.format ≡ c.logging.format

-- What is left of a gate: one that is off and has no suffixes counts as none.
abbrev pub kept_gate : Option CorpNetworkConfig → Option CorpNetworkConfig
kept_gate none = none
kept_gate (some c) = if not c.enabled && is_nil c.dns_suffixes then none else some c

abbrev pub kept_upstream : RoutingMode → Option UpstreamConfig → Option UpstreamConfig
kept_upstream RoutingMode.upstream u = u
kept_upstream RoutingMode.pac u = none
kept_upstream RoutingMode.direct u = none

abbrev pub kept_pac : RoutingMode → Option PacConfig → Option PacConfig
kept_pac RoutingMode.pac p = p
kept_pac RoutingMode.upstream p = none
kept_pac RoutingMode.direct p = none

abbrev pub kept_corp : RoutingMode → Option CorpNetworkConfig → Option CorpNetworkConfig
kept_corp RoutingMode.direct g = none
kept_corp RoutingMode.upstream g = kept_gate g
kept_corp RoutingMode.pac g = kept_gate g

-- A configuration with no sections but those of its mode.
abbrev pub kept : Config → Config
kept c = record c {
  routing = record c.routing {
    upstream = kept_upstream c.routing.mode c.routing.upstream;
    pac = kept_pac c.routing.mode c.routing.pac;
    corp_network = kept_corp c.routing.mode c.routing.corp_network;
  };
}
