-- ===== src/Config/Model.antt =====
-- crates/zicade-config/src/model.rs: the schema and its defaults. A port is a `u16`, a count a
-- `usize` and a time in seconds a `u64`; each is a number here.
use zicade_rs.Prelude.{ℕ, Bool, true, false, Option, List, []}
use zicade_rs.Text.{Str, text}

pub data RoutingMode : Type 0 where
  direct upstream pac : RoutingMode

pub data PacSource : Type 0 where
  auto file url : PacSource

pub data FailPolicy : Type 0 where
  error direct : FailPolicy

pub data AuthMode : Type 0 where
  none basic negotiate : AuthMode

pub data SspiPackage : Type 0 where
  ntlm negotiate : SspiPackage

pub record AuthConfig : Type 0 where
  pub mode : AuthMode
  pub sspi_package : SspiPackage
  pub username : Option Str
  pub password : Option Str

abbrev pub default_auth : AuthConfig
default_auth = record {
  mode = AuthMode.none;
  sspi_package = SspiPackage.ntlm;
  username = Option.none;
  password = Option.none;
}

pub record UpstreamConfig : Type 0 where
  pub host : Str
  pub port : ℕ
  pub auth : AuthConfig

pub record PoolConfig : Type 0 where
  pub enabled : Bool
  pub min_idle : ℕ
  pub idle_timeout_seconds : ℕ

abbrev pub max_min_idle : ℕ
max_min_idle = 16

abbrev pub default_pool : PoolConfig
default_pool = record { enabled = false; min_idle = 2; idle_timeout_seconds = 30 }

pub record PacConfig : Type 0 where
  pub source : PacSource
  pub path : Option Str
  pub url : Option Str
  pub fail_policy : FailPolicy
  pub auth : AuthConfig

abbrev pub default_pac : PacConfig
default_pac = record {
  source = PacSource.auto;
  path = Option.none;
  url = Option.none;
  fail_policy = FailPolicy.error;
  auth = default_auth;
}

pub record CorpNetworkConfig : Type 0 where
  pub enabled : Bool
  pub dns_suffixes : List Str
  pub poll_seconds : ℕ

abbrev pub default_corp_network : CorpNetworkConfig
default_corp_network = record { enabled = false; dns_suffixes = []; poll_seconds = 30 }

pub record ListenConfig : Type 0 where
  pub host : Str
  pub port : ℕ

abbrev pub default_listen : ListenConfig
default_listen = record { host = text "127.0.0.1"; port = 3129 }

pub record LoggingConfig : Type 0 where
  pub level : Str
  pub format : Str

abbrev pub default_logging : LoggingConfig
default_logging = record { level = text "info"; format = text "json" }

pub record RoutingConfig : Type 0 where
  pub mode : RoutingMode
  pub upstream : Option UpstreamConfig
  pub pac : Option PacConfig
  pub corp_network : Option CorpNetworkConfig
  pub pool : PoolConfig

abbrev pub default_routing : RoutingConfig
default_routing = record {
  mode = RoutingMode.direct;
  upstream = Option.none;
  pac = Option.none;
  corp_network = Option.none;
  pool = default_pool;
}

pub record Config : Type 0 where
  pub listen : ListenConfig
  pub routing : RoutingConfig
  pub logging : LoggingConfig

abbrev pub default_config : Config
default_config = record {
  listen = default_listen;
  routing = default_routing;
  logging = default_logging;
}

-- The effective upstream for a proxy that PAC chose, with the auth of `routing.pac`.
abbrev pub pac_upstream_of : Str → ℕ → Option PacConfig → Option UpstreamConfig
pac_upstream_of host port Option.none = Option.none
pac_upstream_of host port (Option.some p) =
    Option.some (record { host = host; port = port; auth = p.auth })

unfoldable pub pac_upstream : RoutingConfig → Str → ℕ → Option UpstreamConfig
pac_upstream routing host port = pac_upstream_of host port routing.pac

-- The derived equality tests that the program uses.
abbrev pub is_basic : AuthMode → Bool
is_basic AuthMode.basic = true
is_basic _ = false

abbrev pub is_negotiate : AuthMode → Bool
is_negotiate AuthMode.negotiate = true
is_negotiate _ = false
