-- ===== src/Config/Validate.antt =====
-- crates/zicade-config/src/validate.rs and error.rs: the checks of a configuration, first violation
-- first.
pub mod Valid
use zicade_rs.Prelude.{
  ℕ, Bool, true, false, not, ◌&&◌, ◌||◌, Option, none, some, List, [], ltb, ◌==◌, if◌then◌else◌,
  is_none, unwrap_or, any, Result, ok, err, ◌>>=◌, ◌>>◌,
}
use zicade_rs.Text.{Str, text, trim, is_empty}
use zicade_rs.Config.Model.{
  RoutingMode, AuthConfig, UpstreamConfig, PacConfig, PoolConfig, CorpNetworkConfig, Config,
  max_min_idle, is_basic, is_negotiate,
}

-- The two errors of loading and saving, `Parse` and `Io`, carry their libraries' messages.
pub data ConfigError : Type 0 where
  parse : Str → ConfigError
  io : Str → Str → ConfigError
  invalid_port : Str → ℕ → ConfigError
  missing_section : Str → Str → ConfigError
  negotiate_unsupported : Str → ConfigError
  missing_credentials : Str → ConfigError
  corp_network : Str → ConfigError
  pool : Str → ConfigError

pub record ValidationCtx : Type 0 where
  pub negotiate_supported : Bool

abbrev pub windows : ValidationCtx
windows = record { negotiate_supported = true }

abbrev pub Check : Type 0
Check = Result ConfigError (Unit {0})

unfoldable pub check_port : Str → ℕ → Check
check_port field port = if port == 0 then err (invalid_port field port) else ok tt

unfoldable pub check_auth : AuthConfig → Str → ValidationCtx → Check
check_auth auth field ctx =
    if is_negotiate auth.mode && not ctx.negotiate_supported
    then err (negotiate_unsupported field)
    else (if is_basic auth.mode && is_empty (trim (unwrap_or [] auth.username))
        then err (missing_credentials field)
        else ok tt)

unfoldable pub has_suffix : List Str → Bool
has_suffix suffixes = any (λ s. not (is_empty (trim s))) suffixes

unfoldable pub check_corp_network : CorpNetworkConfig → Check
check_corp_network corp =
    if not corp.enabled
    then ok tt
    else (if not (has_suffix corp.dns_suffixes)
        then err (corp_network (text "enabled requires at least one non-empty dnsSuffixes entry"))
        else (if corp.poll_seconds == 0
            then err (corp_network (text "pollSeconds must be greater than zero"))
            else ok tt))

unfoldable pub check_pool : PoolConfig → Check
check_pool p =
    if not p.enabled
    then ok tt
    else (if (p.min_idle == 0) || ltb max_min_idle p.min_idle
        then err (pool (text "minIdle must be between 1 and 16"))
        else (if p.idle_timeout_seconds == 0
            then err (pool (text "idleTimeoutSeconds must be greater than zero"))
            else ok tt))

-- The section that the mode needs, given which of the two sections are absent.
unfoldable pub check_sections : RoutingMode → Bool → Bool → Check
check_sections RoutingMode.upstream no_upstream no_pac =
    if no_upstream then err (missing_section (text "upstream") (text "upstream")) else ok tt
check_sections RoutingMode.pac no_upstream no_pac =
    if no_pac then err (missing_section (text "pac") (text "pac")) else ok tt
check_sections RoutingMode.direct no_upstream no_pac = ok tt

-- A section that is absent has nothing to check.
abbrev pub check_some : {A : Type 0} → (A → Check) → Option A → Check
check_some f none = ok tt
check_some f (some a) = f a

unfoldable pub check_upstream : ValidationCtx → UpstreamConfig → Check
check_upstream ctx up =
    check_port (text "routing.upstream.port") up.port
    >> check_auth up.auth (text "routing.upstream.auth") ctx

unfoldable pub check_pac : ValidationCtx → PacConfig → Check
check_pac ctx p = check_auth p.auth (text "routing.pac.auth") ctx

unfoldable pub validate : Config → ValidationCtx → Check
validate cfg ctx = do
  check_port (text "listen.port") cfg.listen.port
  check_sections cfg.routing.mode (is_none cfg.routing.upstream) (is_none cfg.routing.pac)
  check_some (check_upstream ctx) cfg.routing.upstream
  check_some (check_pac ctx) cfg.routing.pac
  check_some check_corp_network cfg.routing.corp_network
  check_pool cfg.routing.pool
