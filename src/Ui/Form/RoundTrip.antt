-- ===== src/Ui/Form/RoundTrip.antt =====
-- The form of a configuration, saved unedited.
use zicade_rs.Prelude.{
  inr, inl, Bool-cases, ◌+◌, ℕ, false, not, ◌&&◌, ◌≡◌, ◌≢◌, ◌<◌, refl, ap, arith, List, [], ◌∷◌,
  Option, none, some, map, filter, ok, unwrap_or, All,
}
use zicade_rs.Text.{
  Str, text, trim, trim_start, is_empty, split_on, split_step, join, parse_uint, decimal,
  parse_uint-decimal, trim_graphic, AllDigits-IsGraphic, decimal-AllDigits, split_on-Lacks,
  split_on-append, split_on_cons,
}
use zicade_rs.Config.Model.{
  Config, RoutingMode, AuthConfig, UpstreamConfig, PacConfig, CorpNetworkConfig, default_pac,
  default_corp_network,
}
use zicade_rs.Ui.Form.{
  u16_modulus, u64_modulus, from_auth, non_blank, to_auth, blank_upstream, port_text, from_config,
  parse_port, upstream, pac, is_suffix_separator, suffixes, poll_of, is_nil, corp, to_config,
  upstream_section, pac_section, corp_section, form_of,
}
use zicade_rs.Ui.Form.Tidy.{
  IsTidy, IsTidyAuth, IsTidyUpstream, IsTidyPac, IsTidySuffix, IsTidyMode, IsTidyGate, IsTidyConfig,
  kept_gate, kept_upstream, kept_pac, kept_corp, kept,
}

non_blank_tidy : (o : Option Str) → IsTidy o → non_blank (unwrap_or [] o) ≡ o
unfolding non_blank is_empty trim
non_blank_tidy none h = refl
non_blank_tidy (some []) h = absurd (h.0 refl)
non_blank_tidy (some (c ∷ s)) h = rw h.1 refl

to_auth-from_auth : (a : AuthConfig) → IsTidyAuth a → to_auth (from_auth a) ≡ a
unfolding to_auth
to_auth-from_auth a h = λ i. record a {
  username = non_blank_tidy a.username h.username i;
  password = non_blank_tidy a.password h.password i;
}

trim-decimal : (n : ℕ) → trim (decimal n) ≡ decimal n
trim-decimal n = trim_graphic (decimal n) (AllDigits-IsGraphic (decimal n) (decimal-AllDigits n))

parse_port-decimal : (field : Str) (n : ℕ) → n < u16_modulus → parse_port field (decimal n) ≡ ok n
unfolding parse_port
parse_port-decimal field n h = rw (trim-decimal n, parse_uint-decimal u16_modulus n h)

-- The display of a number is not empty: it parses.
nonempty_digits :
    (bound : ℕ) (s : Str) {n : ℕ} → parse_uint 10 bound s ≡ some n → is_empty s ≡ false
unfolding is_empty parse_uint
nonempty_digits bound [] h = ground arith
nonempty_digits bound (c ∷ s) h = refl

decimal-is_empty : (n : ℕ) → is_empty (decimal n) ≡ false
decimal-is_empty n =
    nonempty_digits (n + 1) (decimal n) (parse_uint-decimal (n + 1) n (omega arith))

poll_of-decimal : (n : ℕ) → n < u64_modulus → poll_of (decimal n) ≡ ok n
unfolding poll_of
poll_of-decimal n h = rw (trim-decimal n, decimal-is_empty n, parse_uint-decimal u64_modulus n h)

-- White space before a text is trimmed from its first piece.
split_on-space :
    (s : Str)
    → map trim (split_on is_suffix_separator (32 ∷ s)) ≡ map trim (split_on is_suffix_separator s)
unfolding split_on split_step trim trim_start
split_on-space s = let (w, ws, e) = split_on_cons is_suffix_separator s in rw e refl

split_on-join :
    (w : Str) (ws : List Str)
    → All IsTidySuffix (w ∷ ws)
    → map trim (split_on is_suffix_separator (join (text ", ") (w ∷ ws))) ≡ w ∷ ws
unfolding join
split_on-join w [] h = rw (split_on-Lacks is_suffix_separator w h.0.2, h.0.1)
split_on-join w (v ∷ ws) h = rw (
  split_on-append is_suffix_separator w b',' (32 ∷ join (text ", ") (v ∷ ws)) h.0.2 refl,
  h.0.1,
  split_on-space (join (text ", ") (v ∷ ws)),
  split_on-join v ws h.1,
)

filter_tidy : (ws : List Str) → All IsTidySuffix ws → filter (λ e. not (is_empty e)) ws ≡ ws
unfolding filter is_empty
filter_tidy [] h = refl
filter_tidy ([] ∷ ws) h = absurd (h.0.0 refl)
filter_tidy ((c ∷ w) ∷ ws) h = ap (λ vs. (c ∷ w) ∷ vs) (filter_tidy ws h.1)

suffixes_nil : suffixes [] ≡ []
unfolding suffixes split_on filter is_empty trim
suffixes_nil = refl

suffixes-join : (ws : List Str) → All IsTidySuffix ws → suffixes (join (text ", ") ws) ≡ ws
unfolding suffixes join
suffixes-join [] h = suffixes_nil
suffixes-join (w ∷ ws) h = rw (split_on-join w ws h) (filter_tidy (w ∷ ws) h)

port_text_set : (port : ℕ) → port ≢ 0 → port_text port ≡ decimal port
unfolding port_text
port_text_set port h = ground arith

upstream-from_config :
    (c : Config) (u : UpstreamConfig) (p : PacConfig) (g : CorpNetworkConfig)
    → IsTidyUpstream u
    → upstream (form_of c u p g) ≡ ok u
unfolding upstream
upstream-from_config c u p g h = rw (
  port_text_set u.port h.port_set,
  parse_port-decimal (text "Upstream port") u.port h.port,
  h.host,
  to_auth-from_auth u.auth h.auth,
)

pac-from_config :
    (c : Config) (u : UpstreamConfig) (p : PacConfig) (g : CorpNetworkConfig)
    → IsTidyPac p
    → pac (form_of c u p g) ≡ p
unfolding pac
pac-from_config c u p g h = λ i. record p {
  path = non_blank_tidy p.path h.path i;
  url = non_blank_tidy p.url h.url i;
  auth = to_auth-from_auth p.auth h.auth i;
}

corp-from_config :
    (c : Config) (u : UpstreamConfig) (p : PacConfig) (g : Option CorpNetworkConfig)
    → IsTidyGate g
    → corp (form_of c u p (unwrap_or default_corp_network g)) ≡ ok (kept_gate g)
unfolding corp join
corp-from_config c u p none h = rw suffixes_nil
corp-from_config c u p (some g) h = elim (Bool-cases (not g.enabled && is_nil g.dns_suffixes)) [
  | inl untouched ↦ rw (suffixes-join g.dns_suffixes h.dns_suffixes, untouched)
  | inr used ↦
      rw (suffixes-join g.dns_suffixes h.dns_suffixes, used, poll_of-decimal g.poll_seconds h.poll)
]

module _ (c : Config) (u : UpstreamConfig) (p : PacConfig) (g : CorpNetworkConfig) where
  upstream_section-form :
      (mode : RoutingMode) (o : Option UpstreamConfig) (q : Option PacConfig)
      → IsTidyMode mode o q
      → upstream_section mode (form_of c (unwrap_or blank_upstream o) p g)
        ≡ ok (kept_upstream mode o)
  upstream_section-form RoutingMode.upstream none q h = absurd h
  upstream_section-form RoutingMode.upstream (some v) q h = rw (upstream-from_config c v p g h)
  upstream_section-form RoutingMode.pac o q h = refl
  upstream_section-form RoutingMode.direct o q h = refl

  pac_section-form :
      (mode : RoutingMode) (o : Option UpstreamConfig) (q : Option PacConfig)
      → IsTidyMode mode o q
      → pac_section mode (form_of c u (unwrap_or default_pac q) g) ≡ kept_pac mode q
  pac_section-form RoutingMode.pac o none h = absurd h
  pac_section-form RoutingMode.pac o (some v) h = ap some (pac-from_config c u v g h)
  pac_section-form RoutingMode.upstream o q h = refl
  pac_section-form RoutingMode.direct o q h = refl

  corp_section-form :
      (mode : RoutingMode) (o : Option CorpNetworkConfig)
      → IsTidyGate o
      → corp_section mode (form_of c u p (unwrap_or default_corp_network o)) ≡ ok (kept_corp mode o)
  corp_section-form RoutingMode.direct o h = refl
  corp_section-form RoutingMode.upstream o h = corp-from_config c u p o h
  corp_section-form RoutingMode.pac o h = corp-from_config c u p o h

pub to_config-from_config : (c : Config) → IsTidyConfig c → to_config (from_config c) ≡ ok (kept c)
unfolding to_config from_config
to_config-from_config c h =
    let u = unwrap_or blank_upstream c.routing.upstream in
    let p = unwrap_or default_pac c.routing.pac in
    let g = unwrap_or default_corp_network c.routing.corp_network in
    let r = c.routing in
    rw (
      parse_port-decimal (text "Listen port") c.listen.port h.port,
      upstream_section-form c u p g r.mode r.upstream r.pac h.section,
      corp_section-form c u p g r.mode r.corp_network h.gate,
      pac_section-form c u p g r.mode r.upstream r.pac h.section,
      h.host,
      h.level,
      h.format,
    )
