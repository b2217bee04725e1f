-- ===== src/Config/Validate/Valid.antt =====
-- What a configuration that passes is like, and that every such configuration passes.
use zicade_rs.Prelude.{
  ℕ, ◌≤◌, true, Option, none, some, List, [], ◌∷◌, ◌≡◌, ◌≢◌, ◌↔◌, ◌⊎◌, refl, arith, is_none,
  unwrap_or, any, ok, err, ◌>>◌,
}
use zicade_rs.Text.{Str, text, trim, is_empty}
use zicade_rs.Config.Model.{
  AuthMode, RoutingMode, AuthConfig, UpstreamConfig, PacConfig, PoolConfig, CorpNetworkConfig,
  Config,
}
use zicade_rs.Config.Validate.{
  ValidationCtx, Check, check_port, check_auth, has_suffix, check_corp_network, check_pool,
  check_sections, check_some, check_upstream, check_pac, validate,
}

-- A text that is more than white space.
abbrev pub IsFilled : Str → Type 0
IsFilled s = trim s ≢ []

abbrev pub AnyFilled : List Str → Type 0
AnyFilled [] = ⊥
AnyFilled (s ∷ ss) = IsFilled s ⊎ AnyFilled ss

abbrev pub OnSome : {A : Type 0} → (A → Type 0) → Option A → Type 0
OnSome P none = Unit {0}
OnSome P (some a) = P a

-- Negotiate where the platform has it, and a user name for Basic.
pub record IsUsable (ctx : ValidationCtx) (a : AuthConfig) : Type 0 where
  pub supported : a.mode ≡ AuthMode.negotiate → ctx.negotiate_supported ≡ true
  pub named : a.mode ≡ AuthMode.basic → IsFilled (unwrap_or [] a.username)

pub record IsGate (c : CorpNetworkConfig) : Type 0 where
  pub suffixes : c.enabled ≡ true → AnyFilled c.dns_suffixes
  pub polls : c.enabled ≡ true → c.poll_seconds ≢ 0

pub record IsPool (p : PoolConfig) : Type 0 where
  pub some_idle : p.enabled ≡ true → 1 ≤ p.min_idle
  pub few_idle : p.enabled ≡ true → p.min_idle ≤ 16
  pub expires : p.enabled ≡ true → 1 ≤ p.idle_timeout_seconds

pub record IsValid (ctx : ValidationCtx) (c : Config) : Type 0 where
  pub listens : c.listen.port ≢ 0
  pub has_upstream : c.routing.mode ≡ RoutingMode.upstream → c.routing.upstream ≢ none
  pub has_pac : c.routing.mode ≡ RoutingMode.pac → c.routing.pac ≢ none
  pub upstream_usable :
      OnSome (λ (u : UpstreamConfig). (u.port ≢ 0) × IsUsable ctx u.auth) c.routing.upstream
  pub pac_usable : OnSome (λ (p : PacConfig). IsUsable ctx p.auth) c.routing.pac
  pub gate : OnSome IsGate c.routing.corp_network
  pub pool : IsPool c.routing.pool

-- Two checks in a row pass when both do.
>>-eq-ok : (m k : Check) → ((m >> k) ≡ ok tt) ↔ ((m ≡ ok tt) × (k ≡ ok tt))
>>-eq-ok (ok u) k = (λ h. (refl, h), λ h. h.1)
>>-eq-ok (err e) k = (λ h. cc, λ h. cc)

check_some_iff :
    {A : Type 0} (f : A → Check) (P : A → Type 0)
    → ((a : A) → (f a ≡ ok tt) ↔ P a)
    → (o : Option A) → (check_some f o ≡ ok tt) ↔ OnSome P o
check_some_iff f P h none = (λ _. tt, λ _. refl)
check_some_iff f P h (some a) = h a

check_port_iff : (field : Str) (port : ℕ) → (check_port field port ≡ ok tt) ↔ (port ≢ 0)
unfolding check_port
check_port_iff field port = ground arith

is_empty_iff : (s : Str) → (is_empty s ≡ true) ↔ (s ≡ [])
unfolding is_empty
is_empty_iff [] = ground arith
is_empty_iff (c ∷ s) = ground arith

check_auth_iff :
    (ctx : ValidationCtx) (field : Str) (a : AuthConfig)
    → (check_auth a field ctx ≡ ok tt) ↔ IsUsable ctx a
unfolding check_auth
check_auth_iff ctx field a = ground (arith, is_empty_iff (trim (unwrap_or [] a.username)))

has_suffix_iff : (ss : List Str) → (has_suffix ss ≡ true) ↔ AnyFilled ss
unfolding has_suffix any
has_suffix_iff [] = ground arith
has_suffix_iff (s ∷ ss) = ground (arith, is_empty_iff (trim s), has_suffix_iff ss)

check_corp_network_iff : (c : CorpNetworkConfig) → (check_corp_network c ≡ ok tt) ↔ IsGate c
unfolding check_corp_network
check_corp_network_iff c = ground (arith, has_suffix_iff c.dns_suffixes)

check_pool_iff : (p : PoolConfig) → (check_pool p ≡ ok tt) ↔ IsPool p
unfolding check_pool
check_pool_iff p = ground arith

check_sections_iff :
    (m : RoutingMode) (u : Option UpstreamConfig) (p : Option PacConfig)
    → (check_sections m (is_none u) (is_none p) ≡ ok tt)
      ↔ ((m ≡ RoutingMode.upstream → u ≢ none) × (m ≡ RoutingMode.pac → p ≢ none))
unfolding check_sections
check_sections_iff m u p = ground arith

check_upstream_iff :
    (ctx : ValidationCtx) (u : UpstreamConfig)
    → (check_upstream ctx u ≡ ok tt) ↔ ((u.port ≢ 0) × IsUsable ctx u.auth)
unfolding check_upstream
check_upstream_iff ctx u =
    let both =
      >>-eq-ok (check_port (text "routing.upstream.port") u.port)
        (check_auth u.auth (text "routing.upstream.auth") ctx) in
    let port = check_port_iff (text "routing.upstream.port") u.port in
    let auth = check_auth_iff ctx (text "routing.upstream.auth") u.auth in
    (λ h. (port.0 (both.0 h).0, auth.0 (both.0 h).1), λ h. both.1 (port.1 h.0, auth.1 h.1))

check_pac_iff :
    (ctx : ValidationCtx) (p : PacConfig) → (check_pac ctx p ≡ ok tt) ↔ IsUsable ctx p.auth
unfolding check_pac
check_pac_iff ctx p = check_auth_iff ctx (text "routing.pac.auth") p.auth

-- Six checks in a row.
all_pass :
    (a b c d e f : Check)
    → ((a >> (b >> (c >> (d >> (e >> f))))) ≡ ok tt)
      ↔ ((a ≡ ok tt) × (b ≡ ok tt) × (c ≡ ok tt) × (d ≡ ok tt) × (e ≡ ok tt) × (f ≡ ok tt))
all_pass (ok u) (ok v) (ok w) (ok x) (ok y) f = (λ h. (refl, refl, refl, refl, refl, h), λ h. h.5)
all_pass _ _ _ _ _ f = (λ h. cc, λ h. ground arith)

-- `validate` accepts exactly the valid configurations: every check that the program makes, each with
-- its condition, and nothing else.
pub validate_iff : (c : Config) (ctx : ValidationCtx) → (validate c ctx ≡ ok tt) ↔ IsValid ctx c
unfolding validate
validate_iff c ctx =
    let r = c.routing in
    let port = check_port_iff (text "listen.port") c.listen.port in
    let sections = check_sections_iff r.mode r.upstream r.pac in
    let up =
      check_some_iff (check_upstream ctx)
        (λ (u : UpstreamConfig). (u.port ≢ 0) × IsUsable ctx u.auth) (check_upstream_iff ctx)
        r.upstream in
    let script =
      check_some_iff (check_pac ctx) (λ (p : PacConfig). IsUsable ctx p.auth) (check_pac_iff ctx)
        r.pac in
    let gate = check_some_iff check_corp_network IsGate check_corp_network_iff r.corp_network in
    let pool = check_pool_iff r.pool in
    let pass = all_pass _ _ _ _ _ _ in
    (
      λ h.
          let p = pass.0 h in
          record {
            listens = port.0 p.0;
            has_upstream = (sections.0 p.1).0;
            has_pac = (sections.0 p.1).1;
            upstream_usable = up.0 p.2;
            pac_usable = script.0 p.3;
            gate = gate.0 p.4;
            pool = pool.0 p.5;
          },
      λ v. pass.1 (
        port.1 v.listens,
        sections.1 (v.has_upstream, v.has_pac),
        up.1 v.upstream_usable,
        script.1 v.pac_usable,
        gate.1 v.gate,
        pool.1 v.pool,
      ),
    )
