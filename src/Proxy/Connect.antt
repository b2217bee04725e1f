-- ===== src/Proxy/Connect.antt =====
-- crates/zicade-proxy/src/upstream/connect.rs: the authenticated `CONNECT`. The pool's `take`, the
-- dial and whether the whole of it runs into the timeout are arguments. `set_nodelay` and the logs
-- have no effect that the code reads. A result is `none` where the fuel of a drain gave out, which
-- the totality of `drain_chunked` excludes.
pub mod Stale
pub mod Legs
use zicade_rs.Prelude.{
  ◌==◌, ◌>>◌, if◌then◌else◌, map_err, map_option, ℕ, zero, suc, ◌+◌, Bool, true, false, Option,
  none, some, [], ◌∷◌, ◌++◌, List, Result, ok, err, ◌>>=◌,
}
use zicade_rs.Text.{Str, text, decimal}
use zicade_rs.Auth.Handshake.{Bytes, StepFn}
use zicade_rs.Auth.Header.{Base64}
use zicade_rs.Proxy.Driver.{AuthState, UpstreamAuth, new_state, initial_header, on_challenge}
use zicade_rs.Proxy.Wire.{
  Stream, IoError, Input, Head, write_all, await_response, read_head, drain_body,
}

abbrev pub max_legs : ℕ
max_legs = 12

abbrev pub handshake_timeout_seconds : ℕ
handshake_timeout_seconds = 15

pub data Failure : Type 0 where
  stale failed : IoError → Failure

unfoldable pub into_io : Failure → IoError
into_io (stale e) = e
into_io (failed e) = e

abbrev pub crlf : Str
crlf = 13 ∷ 10 ∷ []

abbrev pub authorization_line : Option Str → Str
authorization_line none = []
authorization_line (some value) = text "Proxy-Authorization: " ++ (value ++ crlf)

unfoldable pub connect_request : Str → Option Str → Str
connect_request target auth_header =
    text "CONNECT "
    ++ (target
        ++ (text " HTTP/1.1"
            ++ (crlf
                ++ (text "Host: "
                    ++ (target
                        ++ (crlf
                            ++ (text "Proxy-Connection: keep-alive"
                                ++ (crlf ++ (authorization_line auth_header ++ crlf)))))))))

abbrev pub transport : Bool → IoError → Failure
transport true e = stale e
transport false e = failed e

-- `await_response` on the first leg of a reused socket alone.
abbrev pub await_if : Bool → List Input → Result Failure (Unit {0})
await_if true input = map_err stale (await_response input)
await_if false input = ok tt

-- How `connect` ended: the granted socket or the error, and how many sockets were dialed.
pub record Attempt : Type 0 where
  pub outcome : Result IoError Stream
  pub dials : ℕ

module _ (lossy : Bytes → Str) where
  abbrev pub read_reply : Result Failure (Unit {0}) → Stream → Result Failure Head × Stream
  read_reply (err e) s = (err e, s)
  read_reply (ok u) s =
      let (head, rest) = read_head lossy s.input in (map_err failed head, record s { input = rest })

  unfoldable pub send_leg : Bool → Str → Option Str → Stream → Result Failure Head × Stream
  send_leg first_reused dst auth_header s =
      let (sent, s') = write_all (connect_request dst auth_header) s in
      read_reply (map_err (transport first_reused) sent >> await_if first_reused s'.input) s'

  -- `wire::drain_body(..).map_err(Failure::Failed)`.
  unfoldable pub drain_leg : Head → Stream → Option (Result Failure (Unit {0}) × Stream)
  drain_leg (status, headers) s =
      map_option
        (λ (d : Result IoError (Unit {0}) × List Input).
          (map_err failed d.0, record s { input = d.1 }))
        (drain_body lossy headers s.input)

  module _ {C : Type 0} (b : Base64) (step : StepFn C) where
    -- What a drained response that is not `200` leads to: the next leg's header or the failure.
    abbrev pub answer : AuthState C → Head → Result Failure Str × AuthState C
    answer auth (status, headers) =
        if status == 407
        then (let (value, auth') = on_challenge b step auth headers in
            (map_err failed value, auth'))
        else (err (failed (text "upstream refused CONNECT with status " ++ decimal status)), auth)

    -- The loop over the legs: how many are left, and whether this is the first one of a reused socket.
    unfoldable pub handshake_legs :
        ℕ
        → Bool
        → Str
        → AuthState C
        → Option Str
        → Stream
        → Option (Result Failure (Unit {0}) × Stream)
    handshake_legs zero first_reused dst auth header s =
        some (err (failed (text "upstream handshake exhausted legs")), s)
    handshake_legs (suc n) first_reused dst auth header s =
        elim (send_leg first_reused dst header s).0 [
          | err e ↦ some (err e, (send_leg first_reused dst header s).1)
          | ok head ↦
              if head.0 == 200
              then some (ok tt, (send_leg first_reused dst header s).1)
              else elim (drain_leg head (send_leg first_reused dst header s).1) [
                | none ↦ none
                | some d ↦ elim (d.0 >> (answer auth head).0) [
                  | err e ↦ some (err e, d.1)
                  | ok value ↦ handshake_legs n false dst (answer auth head).1 (some value) d.1
                ]
              ]
        ]

    unfoldable pub handshake :
        Stream → Bool → UpstreamAuth C → Str → Option (Result Failure (Unit {0}) × Stream)
    handshake s reused target_auth dst =
        let (header, auth) = initial_header (new_state target_auth) in
        handshake_legs max_legs reused dst auth header s

    abbrev pub on_fresh : Option (Result Failure (Unit {0}) × Stream) → Option Attempt
    on_fresh none = none
    on_fresh (some (ok u, s)) = some (record { outcome = ok s; dials = 1 })
    on_fresh (some (err e, s)) = some (record { outcome = err (into_io e); dials = 1 })

    -- A failed dial is an attempt to dial all the same.
    abbrev pub dial_fresh : Result IoError Stream → UpstreamAuth C → Str → Option Attempt
    dial_fresh (err e) target_auth dst = some (record { outcome = err e; dials = 1 })
    dial_fresh (ok s) target_auth dst = on_fresh (handshake s false target_auth dst)

    abbrev pub on_pooled :
        Option (Result Failure (Unit {0}) × Stream) → Option Attempt → Option Attempt
    on_pooled none fresh = none
    on_pooled (some (ok u, s)) fresh = some (record { outcome = ok s; dials = 0 })
    on_pooled (some (err (failed e), s)) fresh = some (record { outcome = err e; dials = 0 })
    on_pooled (some (err (stale e), s)) fresh = fresh

    -- From the pooled socket, if the pool gave one, and what a dial would give.
    unfoldable pub connect :
        Option Stream → Result IoError Stream → UpstreamAuth C → Str → Option Attempt
    connect none dial target_auth dst = dial_fresh dial target_auth dst
    connect (some s) dial target_auth dst =
        on_pooled (handshake s true target_auth dst) (dial_fresh dial target_auth dst)

    abbrev pub timeout_message : Str → IoError
    timeout_message addr =
        text "upstream CONNECT handshake with "
        ++ (addr ++ (text " timed out after " ++ (decimal handshake_timeout_seconds ++ text "s")))

    abbrev pub outcome_of : Option Attempt → Option (Result IoError Stream)
    outcome_of none = none
    outcome_of (some a) = some a.outcome

    unfoldable pub connect_via_upstream :
        Bool
        → Str
        → Option Stream
        → Result IoError Stream
        → UpstreamAuth C
        → Str
        → Option (Result IoError Stream)
    connect_via_upstream timed_out addr pooled dial target_auth dst =
        if timed_out
        then some (err (timeout_message addr))
        else outcome_of (connect pooled dial target_auth dst)
