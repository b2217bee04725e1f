-- ===== src/App/Route.antt =====
-- apps/zicade/src/routing.rs: the proxy's settings from the configuration. An SSPI factory is known
-- by the service name and the package it is made for.
use zicade_rs.Prelude.{if◌then◌else◌, unwrap_or, Option, [], ◌++◌}
use zicade_rs.Text.{Str, text}
use zicade_rs.Auth.Header.{Base64, build_basic_authorization}
use zicade_rs.Config.Model.{AuthConfig, AuthMode, SspiPackage, Config, RoutingMode, UpstreamConfig}
use zicade_rs.Proxy.Pool.{PoolConfig, seconds}
use zicade_rs.Proxy.Pool.Registry.{PoolHandle}
use zicade_rs.Config.Model as Model

-- `zicade_win::SspiPackage`.
pub data WinPackage : Type 0 where
  win_ntlm win_negotiate : WinPackage

abbrev pub map_package : SspiPackage → WinPackage
map_package SspiPackage.ntlm = win_ntlm
map_package SspiPackage.negotiate = win_negotiate

pub record SspiFactory : Type 0 where
  pub spn : Str
  pub package_kind : WinPackage

pub data UpstreamAuth : Type 0 where
  none : UpstreamAuth
  basic : Str → UpstreamAuth
  negotiate : SspiFactory → UpstreamAuth

unfoldable pub sspi_factory : Str → WinPackage → SspiFactory
sspi_factory host package_kind = record { spn = text "HTTP/" ++ host; package_kind = package_kind }

-- The proxy's pool settings, and none while the pool is off.
unfoldable pub pool_config : Model.PoolConfig → Option PoolConfig
pool_config pool =
    if pool.enabled
    then Option.some
        (record { min_idle = pool.min_idle; idle_timeout = seconds pool.idle_timeout_seconds })
    else Option.none

pub record UpstreamTarget : Type 0 where
  pub addr : Str
  pub auth : UpstreamAuth
  pub pool : Option PoolHandle

module _ (b : Base64) where
  abbrev pub auth_of : AuthMode → AuthConfig → Str → UpstreamAuth
  auth_of AuthMode.none auth host = UpstreamAuth.none
  auth_of AuthMode.basic auth host =
      UpstreamAuth.basic
        (build_basic_authorization b (unwrap_or [] auth.username) (unwrap_or [] auth.password))
  auth_of AuthMode.negotiate auth host =
      UpstreamAuth.negotiate (sspi_factory host (map_package auth.sspi_package))

  unfoldable pub build_auth : AuthConfig → Str → UpstreamAuth
  build_auth auth host = auth_of auth.mode auth host
