-- ===== src/Ui/Form.antt =====
-- crates/zicade-ui/src/form_model.rs: the form of a configuration, its fields as the text that was typed.
pub mod Tidy
pub mod RoundTrip
pub mod Save
use zicade_rs.Prelude.{
  ℕ, Bool, true, false, not, ◌&&◌, ◌||◌, ◌==◌, none, some, Option, List, [], ◌∷◌, map, filter,
  if◌then◌else◌, unwrap_or, Result, ok, err, ◌>>=◌, ok_or,
}
use zicade_rs.Text.{Str, text, trim, is_empty, split_on, join, parse_uint, decimal}
use zicade_rs.Config.Model.{
  Config, ListenConfig, RoutingConfig, RoutingMode, AuthMode, SspiPackage, AuthConfig,
  UpstreamConfig, PoolConfig, PacConfig, PacSource, FailPolicy, CorpNetworkConfig, LoggingConfig,
  default_auth, default_pac, default_corp_network,
}

abbrev pub default_poll_seconds : ℕ
default_poll_seconds = 30

abbrev pub u16_modulus : ℕ
u16_modulus = 65536

abbrev pub u64_modulus : ℕ
u64_modulus = 18446744073709551616

pub record AuthForm : Type 0 where
  pub mode : AuthMode
  pub sspi_package : SspiPackage
  pub username : Str
  pub password : Str

abbrev pub from_auth : AuthConfig → AuthForm
from_auth auth = record {
  mode = auth.mode;
  sspi_package = auth.sspi_package;
  username = unwrap_or [] auth.username;
  password = unwrap_or [] auth.password;
}

unfoldable pub non_blank : Str → Option Str
non_blank s = if is_empty (trim s) then none else some (trim s)

unfoldable pub to_auth : AuthForm → AuthConfig
unfolding non_blank
to_auth f = record {
  mode = f.mode;
  sspi_package = f.sspi_package;
  username = non_blank f.username;
  password = non_blank f.password;
}

pub record ConfigForm : Type 0 where
  pub listen_host : Str
  pub listen_port : Str
  pub mode : RoutingMode
  pub upstream_host : Str
  pub upstream_port : Str
  pub upstream_auth : AuthForm
  pub pac_source : PacSource
  pub pac_path : Str
  pub pac_url : Str
  pub pac_fail_policy : FailPolicy
  pub pac_auth : AuthForm
  pub corp_enabled : Bool
  pub corp_suffixes : Str
  pub corp_poll_seconds : Str
  pub pool : PoolConfig
  pub log_level : Str
  pub log_format : Str

pub record FormError : Type 0 where
  pub field : Str
  pub reason : Str

abbrev pub blank_upstream : UpstreamConfig
blank_upstream = record { host = []; port = 0; auth = default_auth }

unfoldable pub port_text : ℕ → Str
port_text port = if port == 0 then [] else decimal port

abbrev pub form_of : Config → UpstreamConfig → PacConfig → CorpNetworkConfig → ConfigForm
form_of config upstream pac corp = record {
  listen_host = config.listen.host;
  listen_port = decimal config.listen.port;
  mode = config.routing.mode;
  upstream_host = upstream.host;
  upstream_port = port_text upstream.port;
  upstream_auth = from_auth upstream.auth;
  pac_source = pac.source;
  pac_path = unwrap_or [] pac.path;
  pac_url = unwrap_or [] pac.url;
  pac_fail_policy = pac.fail_policy;
  pac_auth = from_auth pac.auth;
  corp_enabled = corp.enabled;
  corp_suffixes = join (text ", ") corp.dns_suffixes;
  corp_poll_seconds = decimal corp.poll_seconds;
  pool = config.routing.pool;
  log_level = config.logging.level;
  log_format = config.logging.format;
}

unfoldable pub from_config : Config → ConfigForm
from_config config =
    form_of config (unwrap_or blank_upstream config.routing.upstream)
      (unwrap_or default_pac config.routing.pac)
      (unwrap_or default_corp_network config.routing.corp_network)

abbrev pub port_error : Str → FormError
port_error field = record { field = field; reason = text "must be a number from 1 to 65535" }

abbrev pub poll_error : FormError
poll_error = record {
  field = text "Re-check interval";
  reason = text "must be a whole number of seconds";
}

unfoldable pub parse_port : Str → Str → Result FormError ℕ
parse_port field s = ok_or (parse_uint 10 u16_modulus (trim s)) (port_error field)

unfoldable pub upstream : ConfigForm → Result FormError UpstreamConfig
unfolding parse_port to_auth
upstream f = do
  port ← parse_port (text "Upstream port") f.upstream_port
  ok (record { host = trim f.upstream_host; port = port; auth = to_auth f.upstream_auth })

unfoldable pub pac : ConfigForm → PacConfig
unfolding to_auth non_blank
pac f = record {
  source = f.pac_source;
  path = non_blank f.pac_path;
  url = non_blank f.pac_url;
  fail_policy = f.pac_fail_policy;
  auth = to_auth f.pac_auth;
}

abbrev pub is_suffix_separator : ℕ → Bool
is_suffix_separator c = (c == b',') || (c == 10)

unfoldable pub suffixes : Str → List Str
suffixes s = filter (λ e. not (is_empty e)) (map trim (split_on is_suffix_separator s))

unfoldable pub poll_of : Str → Result FormError ℕ
poll_of s =
    if is_empty (trim s)
    then ok default_poll_seconds
    else ok_or (parse_uint 10 u64_modulus (trim s)) poll_error

abbrev pub is_nil : List Str → Bool
is_nil [] = true
is_nil (s ∷ ss) = false

unfoldable pub corp : ConfigForm → Result FormError (Option CorpNetworkConfig)
unfolding suffixes poll_of
corp f =
    let dns_suffixes = suffixes f.corp_suffixes in
    if not f.corp_enabled && is_nil dns_suffixes
    then ok none
    else (poll_of f.corp_poll_seconds >>= λ poll_seconds. ok (
        some (record {
          enabled = f.corp_enabled;
          dns_suffixes = dns_suffixes;
          poll_seconds = poll_seconds;
        })))

-- The sections that the mode emits: the other mode's section is left out, and without a proxy there is
-- no gate.
abbrev pub upstream_section : RoutingMode → ConfigForm → Result FormError (Option UpstreamConfig)
upstream_section RoutingMode.upstream f = upstream f >>= λ u. ok (some u)
upstream_section RoutingMode.pac f = ok none
upstream_section RoutingMode.direct f = ok none

abbrev pub pac_section : RoutingMode → ConfigForm → Option PacConfig
pac_section RoutingMode.pac f = some (pac f)
pac_section RoutingMode.upstream f = none
pac_section RoutingMode.direct f = none

abbrev pub corp_section : RoutingMode → ConfigForm → Result FormError (Option CorpNetworkConfig)
corp_section RoutingMode.direct f = ok none
corp_section RoutingMode.upstream f = corp f
corp_section RoutingMode.pac f = corp f

unfoldable pub to_config : ConfigForm → Result FormError Config
unfolding upstream pac corp
to_config f = do
  port ← parse_port (text "Listen port") f.listen_port
  up ← upstream_section f.mode f
  gate ← corp_section f.mode f
  ok (record {
    listen = record { host = trim f.listen_host; port = port };
    routing = record {
      mode = f.mode;
      upstream = up;
      pac = pac_section f.mode f;
      corp_network = gate;
      pool = f.pool;
    };
    logging = record { level = trim f.log_level; format = trim f.log_format };
  })
