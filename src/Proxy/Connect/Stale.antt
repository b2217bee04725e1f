-- ===== src/Proxy/Connect/Stale.antt =====
-- A second socket is dialed only if the upstream answered nothing on the pooled one.
use zicade_rs.Prelude.{
  ◌>>◌, Result-cases, ◌≢◌, ℕ, zero, suc, Bool, true, false, Option-cases, Option, none, some, [],
  ◌∷◌, ◌++◌, Result, ok, err, ◌≡◌, ◌⊎◌, inl, inr, refl, arith,
}
use zicade_rs.Proxy.Wire.{write_outcome, Stream, IoError, write_all, await_response}
use zicade_rs.Proxy.Connect.{
  max_legs, new_state, initial_header, UpstreamAuth, AuthState, StepFn, Base64, Head, Str, Bytes,
  handshake_legs, handshake, send_leg, drain_leg, answer, stale, failed, Failure, connect,
  connect_request, on_pooled, dial_fresh, Attempt,
}

-- The write of the first request failed, or the socket closed or failed before any byte came.
abbrev pub NoAnswer : Stream → Type 0
NoAnswer s =
    ((e : IoError) × (write_outcome s.write_results ≡ err e))
    ⊎ ((e : IoError) × (await_response s.input ≡ err e))

module _ (lossy : Bytes → Str) where
  send_leg-stale :
      (first_reused : Bool) (dst : Str) (header : Option Str) (s : Stream) {e : IoError}
      → (send_leg lossy first_reused dst header s).0 ≡ err (stale e)
      → (first_reused ≡ true)
        × NoAnswer s
        × ((send_leg lossy first_reused dst header s).1.written
            ≡ s.written ++ (connect_request dst header ∷ []))
  unfolding send_leg write_all
  send_leg-stale first_reused dst header s h = ground arith

  drain_leg-failed :
      (head : Head) (s : Stream) {d : Result Failure (Unit {0}) × Stream} {e : IoError}
      → drain_leg lossy head s ≡ some d
      → d.0 ≢ err (stale e)
  unfolding drain_leg
  drain_leg-failed head s h k = ground arith

  module _ {C : Type 0} (b : Base64) (step : StepFn C) where
    -- Once a reply was read, no failure of this leg is stale, if none of a later leg is.
    answered-not-stale :
        (n : ℕ) (first_reused : Bool) (dst : Str) (auth : AuthState C) (header : Option Str)
        (s s' : Stream) (e : IoError) (head : Head)
        → ((auth' : AuthState C) (value : Option Str) (t : Stream)
            → handshake_legs lossy b step n false dst auth' value t ≢ some (err (stale e), s'))
        → (send_leg lossy first_reused dst header s).0 ≡ ok head
        → handshake_legs lossy b step (suc n) first_reused dst auth header s
          ≢ some (err (stale e), s')
    unfolding handshake_legs
    answered-not-stale n first_reused dst auth header s s' e head later reply h =
        let t = (send_leg lossy first_reused dst header s).1 in
        elim (Option-cases (drain_leg lossy head t)) [
          | inl gone ↦ ground (arith, reply, gone)
          | inr (d, drained) ↦ elim (Result-cases (d.0 >> (answer lossy b step auth head).0)) [
            | inl (value, go_on) ↦ ground (
              arith,
              reply,
              drained,
              go_on,
              later (answer lossy b step auth head).1 (some value) d.1,
            )
            | inr (f, stop) ↦ ground (
              arith,
              reply,
              drained,
              stop,
              drain_leg-failed head t {d = d} {e = e} drained,
              Result-cases d.0,
            )
          ]
        ]

    not_reused-not-stale :
        (n : ℕ) (dst : Str) (auth : AuthState C) (header : Option Str) (s s' : Stream) (e : IoError)
        → handshake_legs lossy b step n false dst auth header s ≢ some (err (stale e), s')
    unfolding handshake_legs
    not_reused-not-stale zero dst auth header s s' e h = ground arith
    not_reused-not-stale (suc n) dst auth header s s' e h =
        elim (Result-cases (send_leg lossy false dst header s).0) [
          | inr (f, why) ↦ ground (arith, why, send_leg-stale false dst header s {e = e})
          | inl (head, reply) ↦
              answered-not-stale n false dst auth header s s' e head
                (λ auth' value t. not_reused-not-stale n dst auth' value t s' e) reply h
        ]

    legs-stale :
        (n : ℕ) (first_reused : Bool) (dst : Str) (auth : AuthState C) (header : Option Str)
        (s s' : Stream) (e : IoError)
        → handshake_legs lossy b step n first_reused dst auth header s ≡ some (err (stale e), s')
        → (first_reused ≡ true)
          × NoAnswer s
          × (s'.written ≡ s.written ++ (connect_request dst header ∷ []))
    unfolding handshake_legs
    legs-stale zero first_reused dst auth header s s' e h = ground arith
    legs-stale (suc n) first_reused dst auth header s s' e h =
        elim (Result-cases (send_leg lossy first_reused dst header s).0) [
          | inr (f, why) ↦ ground (arith, why, send_leg-stale first_reused dst header s {e = e})
          | inl (head, reply) ↦ absurd (
              answered-not-stale n first_reused dst auth header s s' e head
                (λ auth' value t. not_reused-not-stale n dst auth' value t s' e) reply h)
        ]

    handshake-stale :
        (s s' : Stream) (reused : Bool) (target_auth : UpstreamAuth C) (dst : Str) (e : IoError)
        → handshake lossy b step s reused target_auth dst ≡ some (err (stale e), s')
        → NoAnswer s
    unfolding handshake
    handshake-stale s s' reused target_auth dst e h =
        let o = initial_header (new_state target_auth) in
        (legs-stale max_legs reused dst o.1 o.0 s s' e h).1

    on_pooled-NoAnswer :
        (s : Stream) (fresh : Option Attempt) (a : Attempt)
        (tried : Option (Result Failure (Unit {0}) × Stream))
        → ((e : IoError) (s' : Stream) → tried ≡ some (err (stale e), s') → NoAnswer s)
        → on_pooled lossy b step tried fresh ≡ some a
        → NoAnswer s ⊎ (a.dials ≡ 0)
    on_pooled-NoAnswer s fresh a none dead h = ground arith
    on_pooled-NoAnswer s fresh a (some (ok u, t)) dead h = ground arith
    on_pooled-NoAnswer s fresh a (some (err (failed e), t)) dead h = ground arith
    on_pooled-NoAnswer s fresh a (some (err (stale e), t)) dead h = inl (dead e t refl)

    -- A second socket is dialed only if the pooled one failed in the write of the first request or
    -- closed or failed before any byte came back: with a pooled socket on which anything was answered,
    -- a refusal of the credentials included, no other socket is tried.
    pub connect-NoAnswer :
        (s : Stream) (dial : Result IoError Stream) (target_auth : UpstreamAuth C) (dst : Str)
        (a : Attempt)
        → connect lossy b step (some s) dial target_auth dst ≡ some a
        → NoAnswer s ⊎ (a.dials ≡ 0)
    unfolding connect
    connect-NoAnswer s dial target_auth dst a h =
        on_pooled-NoAnswer s (dial_fresh lossy b step dial target_auth dst) a
          (handshake lossy b step s true target_auth dst)
          (λ e s'. handshake-stale s s' true target_auth dst e) h
