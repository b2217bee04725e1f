-- ===== src/Tests/Config.antt =====
-- Configurations checked, redacted and edited.
use zicade_rs.Prelude.{ap, ◌≡◌, ◌↔◌, refl, inl, inr, some, none, ok, true}
use zicade_rs.Text.{text}
use zicade_rs.Config.Model.{
  Config, default_config, default_routing, default_auth, default_pac, UpstreamConfig, AuthConfig,
  AuthMode, RoutingMode,
}
use zicade_rs.Config.Secrets.{without_secrets, keep_secrets_from}
use zicade_rs.Config.Secrets.Redaction.{keep_secrets_from-without_secrets}
use zicade_rs.Config.Secrets.Provenance.{SlotComesFrom, upstream_password-ComesFrom}
use zicade_rs.Config.Validate.{validate, ValidationCtx}
use zicade_rs.Config.Validate.Valid.{IsValid, validate_iff}

abbrev basic_auth : AuthConfig
basic_auth = record default_auth {
  mode = AuthMode.basic;
  username = some (text "ann");
  password = some (text "pw");
}

abbrev basic_upstream : UpstreamConfig
basic_upstream = record { host = text "proxy"; port = 8080; auth = basic_auth }

abbrev basic_config : Config
basic_config = record default_config {
  routing = record default_routing {
    mode = RoutingMode.upstream;
    upstream = some basic_upstream;
    pac = some default_pac;
  };
}

abbrev with_sspi : ValidationCtx
with_sspi = record { negotiate_supported = true }

validate_iff_example : (validate basic_config with_sspi ≡ ok tt) ↔ IsValid with_sspi basic_config
validate_iff_example = validate_iff basic_config with_sspi

keep_secrets_from-without_secrets_example :
    keep_secrets_from (without_secrets basic_config) basic_config ≡ basic_config
keep_secrets_from-without_secrets_example =
    keep_secrets_from-without_secrets basic_config
      (record { on_upstream = inr refl; on_pac = inl refl })

abbrev unedited : UpstreamConfig
unedited = record basic_upstream { auth = record basic_auth { password = none } }

upstream_password-ComesFrom_example :
    (e : UpstreamConfig) × ((without_secrets basic_config).routing.upstream ≡ some e)
    × SlotComesFrom (λ (v : UpstreamConfig). v.auth) e basic_config.routing.upstream (text "pw")
upstream_password-ComesFrom_example =
    upstream_password-ComesFrom (without_secrets basic_config) basic_config basic_upstream
      (text "pw")
      (ap (λ (c : Config). c.routing.upstream) keep_secrets_from-without_secrets_example) refl
