-- ===== src/Proxy/Forward.antt =====
-- crates/zicade-proxy/src/upstream.rs: a plain request forwarded through the upstream proxy. The HTTP
-- client is hyper's: an `HttpClient` says what one connection to the upstream does on its state `W`, and
-- how header values are made and read. `sent` is what was given to the connection, in order. Legs are
-- counted by structural recursion, so a handshake always returns.
pub mod Bounded
pub mod Clean
use zicade_rs.Prelude.{
  ℕ, zero, suc, ◌+◌, ◌-◌, ◌==◌, ◌||◌, Bool, true, false, not, Option, none, some, List, [], ◌∷◌,
  ◌++◌, filter, if◌then◌else◌, Result, ok, err, ◌>>=◌, ok_or,
}
use zicade_rs.Text.{Str, text, str_eq}
use zicade_rs.Auth.Handshake.{Bytes, StepFn}
use zicade_rs.Auth.Header.{Base64}
use zicade_rs.Proxy.Driver.{
  AuthState, UpstreamAuth, Headers, new_state, initial_header, on_challenge,
}
use zicade_rs.Proxy.Connect.{max_legs}

-- A header map's names, in lower case, with their values as bytes.
abbrev pub HeaderMap : Type 0
HeaderMap = List (Str × Bytes)

-- A request, but for the body.
pub record Parts (U : Type 0) : Type 0 where
  pub method : Str
  pub uri : U
  pub headers : HeaderMap

pub record Request (U : Type 0) : Type 0 where
  pub parts : Parts U
  pub body : Bytes

pub record Response (B : Type 0) : Type 0 where
  pub status : ℕ
  pub headers : HeaderMap
  pub body : B

pub record HttpClient (U B W : Type 0) : Type 0 where
  pub ready : W → Result Str (Unit {0}) × W
  pub send_request : Request U → W → Result Str (Response B) × W
  pub collect_limited : B → W → Result Str (Unit {0}) × W
  pub to_str : Bytes → Option Str
  pub header_value : Str → Option Bytes

pub record Sender (U W : Type 0) : Type 0 where
  pub conn : W
  pub sent : List (Request U)

abbrev pub proxy_auth_status : ℕ
proxy_auth_status = 407

-- The client's headers that stay behind.
unfoldable pub is_dropped : Str → Bool
is_dropped name =
    str_eq name (text "content-length")
    || str_eq name (text "transfer-encoding")
    || str_eq name (text "connection")
    || str_eq name (text "proxy-connection")
    || str_eq name (text "proxy-authorization")

abbrev pub kept_headers : HeaderMap → HeaderMap
kept_headers headers = filter (λ (h : Str × Bytes). not (is_dropped h.0)) headers

abbrev pub keep_alive : Str × Bytes
keep_alive = (text "connection", text "keep-alive")

module _ {U B W : Type 0} (http : HttpClient U B W) where
  abbrev pub auth_headers : Option Str → Result Str HeaderMap
  auth_headers none = ok []
  auth_headers (some value) =
      ok_or (http.header_value value) (text "failed to parse header value") >>= λ v.
      ok ((text "proxy-authorization", v) ∷ [])

  unfoldable pub upstream_request : Parts U → Bytes → Option Str → Result Str (Request U)
  upstream_request parts body auth_header = auth_headers auth_header >>= λ auth. ok (record {
    parts = record parts { headers = kept_headers parts.headers ++ (keep_alive ∷ auth) };
    body = body;
  })

  abbrev pub send_built : Result Str (Request U) → Sender U W → Result Str (Response B) × Sender U W
  send_built (err e) s = (err e, s)
  send_built (ok request) s =
      let (resp, conn) = http.send_request request s.conn in
      (resp, record { conn = conn; sent = s.sent ++ (request ∷ []) })

  abbrev pub send_ready :
      Result Str (Unit {0})
      → Parts U
      → Bytes
      → Option Str
      → Sender U W
      → Result Str (Response B) × Sender U W
  send_ready (err e) parts body auth_header s = (err e, s)
  send_ready (ok u) parts body auth_header s =
      send_built (upstream_request parts body auth_header) s

  unfoldable pub send_leg :
      Parts U → Bytes → Option Str → Sender U W → Result Str (Response B) × Sender U W
  send_leg parts body auth_header s =
      let (is_ready, conn) = http.ready s.conn in
      send_ready is_ready parts body auth_header (record s { conn = conn })

  -- A value that is no text cannot carry a challenge.
  unfoldable pub header_pairs : HeaderMap → Headers
  header_pairs [] = []
  header_pairs ((name, value) ∷ rest) =
      let pairs = header_pairs rest in
      elim (http.to_str value) [ none ↦ pairs | some v ↦ (name, v) ∷ pairs ]

  unfoldable pub drain_challenge : Response B → Sender U W → Result Str Headers × Sender U W
  unfolding header_pairs
  drain_challenge resp s =
      let (read, conn) = http.collect_limited resp.body s.conn in
      (read >>= (λ u. ok (header_pairs resp.headers)), record s { conn = conn })

  module _ {C : Type 0} (b : Base64) (step : StepFn C) where
    -- The next leg's header, or the error that ends the handshake.
    abbrev pub on_headers : Result Str Headers → AuthState C → Result Str Str × AuthState C
    on_headers (err e) auth = (err e, auth)
    on_headers (ok headers) auth = on_challenge b step auth headers

    -- The loop, with the legs that are left; a leg's number is what was done of the twelve.
    unfoldable pub forward_legs :
        ℕ
        → Parts U
        → Bytes
        → AuthState C
        → Option Str
        → Sender U W
        → Result Str (Response B × ℕ) × Sender U W
    forward_legs zero parts body auth header s = (err (text "upstream handshake exhausted legs"), s)
    forward_legs (suc n) parts body auth header s =
        let sent = send_leg parts body header s in
        elim sent.0 [
          | err e ↦ (err e, sent.1)
          | ok resp ↦
              (let drained = drain_challenge resp sent.1 in
                let next = on_headers drained.0 auth in
                if not (resp.status == proxy_auth_status)
                then (ok (resp, max_legs - n), sent.1)
                else elim next.0 [
                  | err e ↦ (err e, drained.1)
                  | ok value ↦ forward_legs n parts body next.1 (some value) drained.1
                ])
        ]

    unfoldable pub forward_handshake :
        Parts U → Bytes → UpstreamAuth C → Sender U W → Result Str (Response B × ℕ) × Sender U W
    forward_handshake parts body target_auth s =
        let (header, auth) = initial_header (new_state target_auth) in
        forward_legs max_legs parts body auth header s

    -- From the client's body, read to its end or not, and the connection to the upstream.
    unfoldable pub forward_via_upstream :
        Parts U → Result Str Bytes → Result Str W → UpstreamAuth C → Result Str (Response B)
    unfolding forward_handshake
    forward_via_upstream parts body dial target_auth = body >>= (λ bytes. dial >>= (λ conn.
        (forward_handshake parts bytes target_auth (record { conn = conn; sent = [] })).0
        >>= λ (r : Response B × ℕ). ok r.0))
