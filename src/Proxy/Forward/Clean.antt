-- ===== src/Proxy/Forward/Clean.antt =====
-- What a forwarded request tells the upstream.
use zicade_rs.Prelude.{
  ◌≢◌, ℕ, zero, suc, ◌==◌, ◌≡◌, ◌⊎◌, true, false, Bool-cases, Result-cases, Option-cases, inl, inr,
  Option, none, some, List, [], ◌∷◌, ◌++◌, Result, ok, err, refl, sym, subst, arith, All, Any,
  filter, ◌>>=◌,
}
use zicade_rs.Text.{str_eq_iff, text}
use zicade_rs.Auth.Header.{AuthScheme, build_proxy_authorization}
use zicade_rs.Proxy.Driver.{
  negotiate_leg, keyword_for, Headers, on_challenge, new_state, initial_header,
}
use zicade_rs.Proxy.Forward.Bounded.{drain-sent}
use zicade_rs.Proxy.Forward.{
  HttpClient, Sender, Parts, Request, HeaderMap, Str, Bytes, AuthState, UpstreamAuth, Base64,
  StepFn, send_leg, drain_challenge, forward_legs, forward_handshake, on_headers, max_legs,
  proxy_auth_status, upstream_request, is_dropped, kept_headers, keep_alive,
}

-- The name is none of the five that stay behind.
abbrev pub IsPassedOn : Str → Type 0
IsPassedOn name =
    (name ≢ text "content-length")
    × (name ≢ text "transfer-encoding")
    × (name ≢ text "connection")
    × (name ≢ text "proxy-connection")
    × (name ≢ text "proxy-authorization")

is_dropped-IsPassedOn : (name : Str) → is_dropped name ≡ false → IsPassedOn name
unfolding is_dropped
is_dropped-IsPassedOn name h = (
  λ e. ground (arith, (str_eq_iff name (text "content-length")).1 e),
  λ e. ground (arith, (str_eq_iff name (text "transfer-encoding")).1 e),
  λ e. ground (arith, (str_eq_iff name (text "connection")).1 e),
  λ e. ground (arith, (str_eq_iff name (text "proxy-connection")).1 e),
  λ e. ground (arith, (str_eq_iff name (text "proxy-authorization")).1 e),
)

-- A value is one that the configured auth makes.
abbrev pub IsOwn : {C : Type 0} → Base64 → UpstreamAuth C → Str → Type 0
IsOwn b UpstreamAuth.none v = ⊥
IsOwn b (UpstreamAuth.basic credentials) v = v ≡ credentials
IsOwn b (UpstreamAuth.negotiate auth) v =
    (keyword : AuthScheme) × (token : Bytes) × (v ≡ build_proxy_authorization b keyword token)

abbrev IsOwnOption : {C : Type 0} → Base64 → UpstreamAuth C → Option Str → Type 0
IsOwnOption b target none = Unit
IsOwnOption b target (some v) = IsOwn b target v

-- A connection's auth state belongs to the configured auth.
abbrev IsFor : {C : Type 0} → UpstreamAuth C → AuthState C → Type 0
IsFor UpstreamAuth.none AuthState.none = Unit
IsFor (UpstreamAuth.basic c) (AuthState.basic d sent) = d ≡ c
IsFor (UpstreamAuth.negotiate auth) (AuthState.negotiate h scheme) = Unit
IsFor _ _ = ⊥

abbrev IsOwnAnswer : {C : Type 0} → Base64 → UpstreamAuth C → Result Str Str → Type 0
IsOwnAnswer b target (err e) = Unit
IsOwnAnswer b target (ok v) = IsOwn b target v

module _ {C : Type 0} (b : Base64) (step : StepFn C) where
  initial-IsFor :
      (target : UpstreamAuth C)
      → IsOwnOption b target (initial_header (new_state target)).0
        × IsFor target (initial_header (new_state target)).1
  unfolding initial_header new_state
  initial-IsFor UpstreamAuth.none = (tt, tt)
  initial-IsFor (UpstreamAuth.basic credentials) = (refl, refl)
  initial-IsFor (UpstreamAuth.negotiate auth) = (tt, tt)

  bind_token :
      (auth : C) (k : AuthScheme) (t : Result Str Bytes)
      → IsOwnAnswer b
          (UpstreamAuth.negotiate auth)
          (t >>= λ token. ok (build_proxy_authorization b k token))
  bind_token auth k (ok token) = (k, token, refl)
  bind_token auth k (err why) = tt

  on_challenge-IsFor :
      (target : UpstreamAuth C) (auth : AuthState C) (headers : Headers)
      → IsFor target auth
      → IsFor target (on_challenge b step auth headers).1
        × IsOwnAnswer b target (on_challenge b step auth headers).0
  unfolding on_challenge negotiate_leg
  on_challenge-IsFor UpstreamAuth.none AuthState.none headers h = (tt, tt)
  on_challenge-IsFor (UpstreamAuth.basic c) (AuthState.basic d true) headers h = (h, tt)
  on_challenge-IsFor (UpstreamAuth.basic c) (AuthState.basic d false) headers h = (h, h)
  on_challenge-IsFor (UpstreamAuth.negotiate a) (AuthState.negotiate m scheme) headers h =
      elim (Result-cases (keyword_for b scheme headers)) [
        | inl (k, e) ↦ rw (on_challenge, negotiate_leg, e) (tt, bind_token a k _)
        | inr (why, e) ↦ rw (on_challenge, negotiate_leg, e) (tt, tt)
      ]
  on_challenge-IsFor UpstreamAuth.none (AuthState.basic d sent) headers h = absurd h
  on_challenge-IsFor UpstreamAuth.none (AuthState.negotiate m scheme) headers h = absurd h
  on_challenge-IsFor (UpstreamAuth.basic c) AuthState.none headers h = absurd h
  on_challenge-IsFor (UpstreamAuth.basic c) (AuthState.negotiate m scheme) headers h = absurd h
  on_challenge-IsFor (UpstreamAuth.negotiate a) AuthState.none headers h = absurd h
  on_challenge-IsFor (UpstreamAuth.negotiate a) (AuthState.basic d sent) headers h = absurd h

ok_injective : {A : Type 0} {a c : A} → Path (Result Str A) (ok a) (ok c) → a ≡ c
ok_injective e = ground (arith, e)

module _ {U B W : Type 0} (http : HttpClient U B W) {C : Type 0} (b : Base64) (step : StepFn C)
    (target : UpstreamAuth C) where
  -- A header that may go to the upstream: one of the client's with none of the five names,
  -- `connection: keep-alive`, or credentials of the proxy's own.
  abbrev pub MayGo : HeaderMap → Str × Bytes → Type 0
  MayGo hs h =
      (IsPassedOn h.0 × Any (λ x. x ≡ h) hs)
      ⊎ (h ≡ keep_alive)
      ⊎ ((h.0 ≡ text "proxy-authorization")
          × ((v : Str) × (http.header_value v ≡ some h.1) × IsOwn b target v))

  abbrev pub IsClean : Parts U → Bytes → Request U → Type 0
  IsClean parts body q =
      (q.parts.method ≡ parts.method)
      × (q.parts.uri ≡ parts.uri)
      × (q.body ≡ body)
      × All (MayGo parts.headers) q.parts.headers

  kept-MayGo :
      (hs from rest : HeaderMap)
      → ((h : Str × Bytes) → Any (λ x. x ≡ h) hs → Any (λ x. x ≡ h) from)
      → All (MayGo from) rest
      → All (MayGo from) (kept_headers hs ++ rest)
  unfolding filter
  kept-MayGo [] from rest within h = h
  kept-MayGo (x ∷ hs) from rest within h =
      let others = kept-MayGo hs from rest (λ y m. within y (inr m)) h in
      elim (Bool-cases (is_dropped x.0)) [
        | inl dropped ↦ rw dropped others
        | inr stays ↦ rw stays (inl (is_dropped-IsPassedOn x.0 stays, within x (inl refl)), others)
      ]

  abbrev built : Parts U → Bytes → HeaderMap → Request U
  built parts body auth = record {
    parts = record parts { headers = kept_headers parts.headers ++ (keep_alive ∷ auth) };
    body = body;
  }

  built-IsClean :
      (parts : Parts U) (body : Bytes) (auth : HeaderMap)
      → All (MayGo parts.headers) auth
      → IsClean parts body (built parts body auth)
  built-IsClean parts body auth h = (
    refl,
    refl,
    refl,
    kept-MayGo parts.headers parts.headers (keep_alive ∷ auth) (λ y m. m) (inr (inl refl), h),
  )

  upstream_request-IsClean :
      (parts : Parts U) (body : Bytes) (header : Option Str) (q : Request U)
      → IsOwnOption b target header
      → upstream_request http parts body header ≡ ok q
      → IsClean parts body q
  unfolding upstream_request
  upstream_request-IsClean parts body none q own e =
      subst (IsClean parts body) (ok_injective e) (built-IsClean parts body [] tt)
  upstream_request-IsClean parts body (some v) q own e = elim (Option-cases (http.header_value v)) [
    | inl bad ↦ absurd (ground (arith, rw (upstream_request, bad) at e))
    | inr (value, good) ↦
        subst (IsClean parts body) (ok_injective (rw (upstream_request, good) at e)) (
          built-IsClean parts body ((text "proxy-authorization", value) ∷ [])
            (inr (inr (refl, (v, good, own))), tt))
  ]

  All-concat :
      (parts : Parts U) (body : Bytes) (qs : List (Request U)) (q : Request U)
      → All (IsClean parts body) qs
      → IsClean parts body q
      → All (IsClean parts body) (qs ++ (q ∷ []))
  All-concat parts body [] q h k = (k, tt)
  All-concat parts body (x ∷ qs) q h k = (h.0, All-concat parts body qs q h.1 k)

  on_headers-IsFor :
      (headers : Result Str Headers) (auth : AuthState C)
      → IsFor target auth
      → IsFor target (on_headers http b step headers auth).1
        × IsOwnAnswer b target (on_headers http b step headers auth).0
  on_headers-IsFor (err e) auth h = (h, tt)
  on_headers-IsFor (ok headers) auth h = on_challenge-IsFor b step target auth headers h

  send_leg-IsClean :
      (parts : Parts U) (body : Bytes) (header : Option Str) (s : Sender U W)
      → IsOwnOption b target header
      → All (IsClean parts body) s.sent
      → All (IsClean parts body) (send_leg http parts body header s).1.sent
  unfolding send_leg
  send_leg-IsClean parts body header s own clean = elim (Result-cases (http.ready s.conn).0) [
    | inr (e, no_go) ↦ rw (send_leg, no_go) clean
    | inl (u, go) ↦ elim (Result-cases (upstream_request http parts body header)) [
      | inr (e, bad) ↦ rw (send_leg, go, bad) clean
      | inl (q, good) ↦
          rw (send_leg, go, good)
            (All-concat parts body s.sent q clean
              (upstream_request-IsClean parts body header q own good))
    ]
  ]

  forward_legs-IsClean :
      (n : ℕ) (parts : Parts U) (body : Bytes) (auth : AuthState C) (header : Option Str)
      (s : Sender U W)
      → IsFor target auth
      → IsOwnOption b target header
      → All (IsClean parts body) s.sent
      → All (IsClean parts body) (forward_legs http b step n parts body auth header s).1.sent
  unfolding forward_legs
  forward_legs-IsClean zero parts body auth header s fits own clean = clean
  forward_legs-IsClean (suc n) parts body auth header s fits own clean =
      let sent = send_leg http parts body header s in
      let after = send_leg-IsClean parts body header s own clean in
      elim (Result-cases sent.0) [
        | inr (e, why) ↦ rw (forward_legs, why) after
        | inl (resp, reply) ↦ elim (Bool-cases (resp.status == proxy_auth_status)) [
          | inr final ↦ rw (forward_legs, reply, final) after
          | inl challenged ↦
              (let drained = drain_challenge http resp sent.1 in
                let next = on_headers http b step drained.0 auth in
                let kept : All (IsClean parts body) drained.1.sent =
                  subst (All (IsClean parts body)) (sym (drain-sent http resp sent.1)) after in
                let same = on_headers-IsFor drained.0 auth fits in
                elim (Result-cases next.0) [
                  | inr (e, stop) ↦ rw (forward_legs, reply, challenged, stop) kept
                  | inl (value, go_on) ↦
                      rw (forward_legs, reply, challenged, go_on)
                        (forward_legs-IsClean n parts body next.1 (some value) drained.1 same.0
                          (rw go_on at same.1) kept)
                ])
        ]
      ]

  -- Every request of a forwarding that starts on a fresh connection has the client's method, URI and
  -- body. Each of its headers is one of the client's with another name than content-length,
  -- transfer-encoding, connection, proxy-connection and proxy-authorization, or `connection: keep-alive`,
  -- or a `proxy-authorization` whose value the configured auth makes: a client's credentials for a
  -- proxy never go out.
  pub forward_handshake-IsClean :
      (parts : Parts U) (body : Bytes) (conn : W)
      → All
          (IsClean parts body)
          (forward_handshake http b step parts body target
            (record { conn = conn; sent = [] })).1.sent
  unfolding forward_handshake
  forward_handshake-IsClean parts body conn =
      let o = initial_header (new_state target) in
      let fits = initial-IsFor b step target in
      forward_legs-IsClean max_legs parts body o.1 o.0 (record { conn = conn; sent = [] }) fits.1
        fits.0 tt
