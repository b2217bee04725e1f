-- ===== src/Config/Secrets/Redaction.antt =====
-- What the UI is shown holds no password, and saving it again loses none.
use zicade_rs.Prelude.{true, Option, none, some, ◌≡◌, ◌⊎◌, refl, arith, ap, map_option}
use zicade_rs.Text.{Str, str_eq_refl}
use zicade_rs.Config.Model.{AuthMode, AuthConfig, UpstreamConfig, PacConfig, Config}
use zicade_rs.Config.Secrets.{
  clear_password, without_secrets, same_username, keep_password_from, keep_upstream, keep_pac,
  keep_secrets_from,
}

-- A slot that stores a password is a Basic one.
abbrev pub StoresForBasic : AuthConfig → Type 0
StoresForBasic a = (a.password ≡ none) ⊎ (a.mode ≡ AuthMode.basic)

abbrev pub OnSlot : {A : Type 0} → (AuthConfig → Type 0) → (A → AuthConfig) → Option A → Type 0
OnSlot P auth none = Unit {0}
OnSlot P auth (some a) = P (auth a)

-- A statement about both auth slots of a configuration.
pub record OnSlots (P : AuthConfig → Type 0) (c : Config) : Type 0 where
  pub on_upstream : OnSlot P (λ (u : UpstreamConfig). u.auth) c.routing.upstream
  pub on_pac : OnSlot P (λ (p : PacConfig). p.auth) c.routing.pac

same_username_refl : (u : Option Str) → same_username u u ≡ true
unfolding same_username
same_username_refl none = refl
same_username_refl (some s) = str_eq_refl s

keep_password_from-clear :
    (a : AuthConfig) → StoresForBasic a → keep_password_from (clear_password a) a ≡ a
unfolding keep_password_from
keep_password_from-clear a h = ground (arith, same_username_refl a.username)

-- Both slots of a redacted configuration hold no password.
pub without_secrets-clear : (c : Config) → OnSlots (λ a. a.password ≡ none) (without_secrets c)
unfolding without_secrets
without_secrets-clear c = record {
  on_upstream = upstream_clear c.routing.upstream;
  on_pac = pac_clear c.routing.pac;
}
  where
    upstream_clear :
        (u : Option UpstreamConfig)
        → OnSlot
            (λ a. a.password ≡ none)
            (λ (u : UpstreamConfig). u.auth)
            (map_option (λ (u : UpstreamConfig). record u { auth = clear_password u.auth }) u)
    upstream_clear none = tt
    upstream_clear (some u) = refl

    pac_clear :
        (p : Option PacConfig)
        → OnSlot
            (λ a. a.password ≡ none)
            (λ (p : PacConfig). p.auth)
            (map_option (λ (p : PacConfig). record p { auth = clear_password p.auth }) p)
    pac_clear none = tt
    pac_clear (some p) = refl

keep_upstream-clear :
    (u : Option UpstreamConfig)
    → OnSlot StoresForBasic (λ (u : UpstreamConfig). u.auth) u
    → keep_upstream
        (map_option (λ (u : UpstreamConfig). record u { auth = clear_password u.auth }) u)
        u
      ≡ u
unfolding keep_upstream
keep_upstream-clear none h = refl
keep_upstream-clear (some u) h =
    ap (λ a. some (record u { auth = a })) (keep_password_from-clear u.auth h)

keep_pac-clear :
    (p : Option PacConfig)
    → OnSlot StoresForBasic (λ (p : PacConfig). p.auth) p
    → keep_pac (map_option (λ (p : PacConfig). record p { auth = clear_password p.auth }) p) p ≡ p
unfolding keep_pac
keep_pac-clear none h = refl
keep_pac-clear (some p) h =
    ap (λ a. some (record p { auth = a })) (keep_password_from-clear p.auth h)

-- A redacted configuration that comes back unedited is the saved one again, passwords included,
-- where passwords are stored only in Basic slots.
pub keep_secrets_from-without_secrets :
    (c : Config) → OnSlots StoresForBasic c → keep_secrets_from (without_secrets c) c ≡ c
unfolding keep_secrets_from without_secrets
keep_secrets_from-without_secrets c h = λ i. record c {
  routing = record (c.routing) {
    upstream = keep_upstream-clear c.routing.upstream h.on_upstream i;
    pac = keep_pac-clear c.routing.pac h.on_pac i;
  };
}
