-- ===== src/Config/Secrets.antt =====
-- crates/zicade-config/src/model.rs: what the UI is shown of a configuration, and the passwords
-- that an edit takes over from the saved one.
pub mod Redaction
pub mod Provenance
use zicade_rs.Prelude.{
  Bool, true, false, ◌&&◌, Option, none, some, ◌≡◌, ◌≢◌, ◌⊎◌, inl, inr, refl, arith, is_none,
  map_option, if◌then◌else◌,
}
use zicade_rs.Text.{Str, str_eq, str_eq_iff}
use zicade_rs.Config.Model.{
  AuthMode, AuthConfig, UpstreamConfig, PacConfig, RoutingConfig, Config, is_basic,
}

abbrev pub clear_password : AuthConfig → AuthConfig
clear_password auth = record auth { password = none }

-- `auth_slots_mut` visits the upstream's slot and the PAC section's.
unfoldable pub without_secrets : Config → Config
without_secrets cfg = record cfg {
  routing = record (cfg.routing) {
    upstream =
        map_option (λ (u : UpstreamConfig). record u { auth = clear_password u.auth })
          cfg.routing.upstream;
    pac = map_option (λ (p : PacConfig). record p { auth = clear_password p.auth }) cfg.routing.pac;
  };
}

unfoldable pub same_username : Option Str → Option Str → Bool
same_username none none = true
same_username (some a) (some b) = str_eq a b
same_username _ _ = false

unfoldable pub keep_password_from : AuthConfig → AuthConfig → AuthConfig
keep_password_from auth saved =
    if is_none auth.password
      && (is_basic auth.mode && (is_basic saved.mode && same_username auth.username saved.username))
    then record auth { password = saved.password }
    else auth

unfoldable pub keep_upstream : Option UpstreamConfig → Option UpstreamConfig → Option UpstreamConfig
unfolding keep_password_from
keep_upstream (some u) (some old) = some (record u { auth = keep_password_from u.auth old.auth })
keep_upstream u _ = u

unfoldable pub keep_pac : Option PacConfig → Option PacConfig → Option PacConfig
unfolding keep_password_from
keep_pac (some p) (some old) = some (record p { auth = keep_password_from p.auth old.auth })
keep_pac p _ = p

unfoldable pub keep_secrets_from : Config → Config → Config
unfolding keep_upstream keep_pac
keep_secrets_from cfg saved = record cfg {
  routing = record (cfg.routing) {
    upstream = keep_upstream cfg.routing.upstream saved.routing.upstream;
    pac = keep_pac cfg.routing.pac saved.routing.pac;
  };
}
