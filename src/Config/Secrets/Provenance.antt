-- ===== src/Config/Secrets/Provenance.antt =====
-- Where a password of the applied configuration comes from.
use zicade_rs.Prelude.{true, Option, none, some, ◌≡◌, ◌⊎◌, refl, arith, ap}
use zicade_rs.Text.{Str, str_eq_iff}
use zicade_rs.Config.Model.{AuthMode, AuthConfig, UpstreamConfig, PacConfig, Config}
use zicade_rs.Config.Secrets.{
  same_username, keep_password_from, keep_upstream, keep_pac, keep_secrets_from,
}

-- The edit typed the password, or left it out and is still Basic for the saved username.
abbrev pub ComesFrom : AuthConfig → AuthConfig → Str → Type 0
ComesFrom edited saved p =
    (edited.password ≡ some p)
    ⊎ ((edited.password ≡ none)
        × (edited.mode ≡ AuthMode.basic)
        × (saved.mode ≡ AuthMode.basic)
        × (edited.username ≡ saved.username)
        × (saved.password ≡ some p))

same_username→eq : (u v : Option Str) → same_username u v ≡ true → u ≡ v
unfolding same_username
same_username→eq none none h = refl
same_username→eq (some a) (some b) h = ap some ((str_eq_iff a b).0 h)
same_username→eq none (some b) h = cc
same_username→eq (some a) none h = cc

keep_password_from-ComesFrom :
    (edited saved : AuthConfig) (p : Str)
    → (keep_password_from edited saved).password ≡ some p
    → ComesFrom edited saved p
unfolding keep_password_from
keep_password_from-ComesFrom edited saved p h =
    ground (arith, same_username→eq edited.username saved.username)

-- The saved slot is absent: the password was typed.
abbrev pub SlotComesFrom : {A : Type 0} → (A → AuthConfig) → A → Option A → Str → Type 0
SlotComesFrom auth edited none p = (auth edited).password ≡ some p
SlotComesFrom auth edited (some saved) p = ComesFrom (auth edited) (auth saved) p

keep_upstream-ComesFrom :
    (edited saved : Option UpstreamConfig) {u : UpstreamConfig} {p : Str}
    → keep_upstream edited saved ≡ some u
    → u.auth.password ≡ some p
    → (e : UpstreamConfig) × (edited ≡ some e)
      × SlotComesFrom (λ (v : UpstreamConfig). v.auth) e saved p
unfolding keep_upstream
keep_upstream-ComesFrom none none h k = cc
keep_upstream-ComesFrom none (some old) h k = cc
keep_upstream-ComesFrom (some e) none h k = (e, refl, ground arith)
keep_upstream-ComesFrom (some e) (some old) {u} {p} h k =
    (e, refl, keep_password_from-ComesFrom e.auth old.auth p (ground arith))

keep_pac-ComesFrom :
    (edited saved : Option PacConfig) {u : PacConfig} {p : Str}
    → keep_pac edited saved ≡ some u
    → u.auth.password ≡ some p
    → (e : PacConfig) × (edited ≡ some e) × SlotComesFrom (λ (v : PacConfig). v.auth) e saved p
unfolding keep_pac
keep_pac-ComesFrom none none h k = cc
keep_pac-ComesFrom none (some old) h k = cc
keep_pac-ComesFrom (some e) none h k = (e, refl, ground arith)
keep_pac-ComesFrom (some e) (some old) {u} {p} h k =
    (e, refl, keep_password_from-ComesFrom e.auth old.auth p (ground arith))

-- A password in the upstream slot after an edit was typed in the edit, or it is the saved upstream's
-- and the edit left the password out, is still Basic, and names the saved username.
pub upstream_password-ComesFrom :
    (edited saved : Config) (u : UpstreamConfig) (p : Str)
    → (keep_secrets_from edited saved).routing.upstream ≡ some u
    → u.auth.password ≡ some p
    → (e : UpstreamConfig) × (edited.routing.upstream ≡ some e)
      × SlotComesFrom (λ (v : UpstreamConfig). v.auth) e saved.routing.upstream p
unfolding keep_secrets_from
upstream_password-ComesFrom edited saved u p =
    keep_upstream-ComesFrom edited.routing.upstream saved.routing.upstream

-- The same of the PAC section's slot.
pub pac_password-ComesFrom :
    (edited saved : Config) (u : PacConfig) (p : Str)
    → (keep_secrets_from edited saved).routing.pac ≡ some u
    → u.auth.password ≡ some p
    → (e : PacConfig) × (edited.routing.pac ≡ some e)
      × SlotComesFrom (λ (v : PacConfig). v.auth) e saved.routing.pac p
unfolding keep_secrets_from
pac_password-ComesFrom edited saved u p = keep_pac-ComesFrom edited.routing.pac saved.routing.pac
