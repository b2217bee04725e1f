-- ===== src/Auth/Handshake/Legs.antt =====
-- How often the handshake may ask its authenticator for a token.
use zicade_rs.Prelude.{
  ℕ, suc, ◌+◌, ◌≤◌, ◌<◌, ◌≡◌, refl, false, Option, List, [], ◌∷◌, arith, Result, ok, err,
}
use zicade_rs.Auth.Handshake.{
  Bytes, AuthError, UpstreamResponse, proxy_auth_required, HandshakeStep, send_token, complete,
  StepFn, NegotiateHandshake, u32_modulus, new, with_max_legs, after_step, advance, on_response,
  run,
}

-- The tokens among the answers.
abbrev pub tokens : List (Result AuthError HandshakeStep) → ℕ
tokens [] = 0
tokens (ok (send_token t) ∷ os) = suc (tokens os)
tokens (ok complete ∷ os) = tokens os
tokens (err e ∷ os) = tokens os

-- The counter is within the cap, which is a `u32`, and a leg has been made exactly when the
-- handshake has started.
pub record IsCounted {C : Type 0} (h : NegotiateHandshake C) : Type 0 where
  pub within : h.legs ≤ h.max_legs
  pub cap_is_u32 : h.max_legs < u32_modulus
  pub unstarted : h.started ≡ false → h.legs ≡ 0

-- A call keeps the count, and raises it by the tokens that it answers.
pub record Counts {C : Type 0} (h : NegotiateHandshake C)
    (r : NegotiateHandshake C × Result AuthError HandshakeStep) : Type 0 where
  pub counted : IsCounted r.0
  pub same_cap : r.0.max_legs ≡ h.max_legs
  pub grows : r.0.legs ≡ h.legs + tokens (r.1 ∷ [])

tokens_cons :
    (o : Result AuthError HandshakeStep) (os : List (Result AuthError HandshakeStep))
    → tokens (o ∷ os) ≡ tokens (o ∷ []) + tokens os
tokens_cons (ok (send_token t)) os = omega arith
tokens_cons (ok complete) os = omega arith
tokens_cons (err e) os = omega arith

module _ {C : Type 0} (step : StepFn C) where
  after_step-Counts :
      (h : NegotiateHandshake C) (a : C × Result AuthError Bytes)
      → IsCounted h
      → h.legs < h.max_legs
      → Counts h (after_step step h a)
  after_step-Counts h (auth, ok token) v below = ground arith
  after_step-Counts h (auth, err e) v below = ground arith

  advance-Counts :
      (h : NegotiateHandshake C) (challenge : Option Bytes)
      → IsCounted h
      → Counts h (advance step h challenge)
  unfolding advance
  advance-Counts h challenge v = ground (arith, after_step-Counts h (step h.auth challenge) v)

  on_response-Counts :
      (h : NegotiateHandshake C) (r : UpstreamResponse)
      → IsCounted h
      → Counts h (on_response step h r)
  unfolding on_response
  on_response-Counts h (proxy_auth_required c) v = ground (arith, advance-Counts h c v)
  on_response-Counts h _ v = ground arith

  Counts-tail :
      (h : NegotiateHandshake C) (r : UpstreamResponse) (rs : List UpstreamResponse)
      → Counts h (on_response step h r)
      → (run step (on_response step h r).0 rs).0.legs
        ≡ (on_response step h r).0.legs + tokens (run step (on_response step h r).0 rs).1
      → (run step h (r ∷ rs)).0.legs ≡ h.legs + tokens (run step h (r ∷ rs)).1
  unfolding run
  Counts-tail h r rs c e = omega (
    arith,
    tokens_cons (on_response step h r).1 (run step (on_response step h r).0 rs).1,
    c.grows,
    e,
  )

  run-Counts :
      (h : NegotiateHandshake C) (rs : List UpstreamResponse)
      → IsCounted h
      → IsCounted (run step h rs).0
        × ((run step h rs).0.max_legs ≡ h.max_legs)
        × ((run step h rs).0.legs ≡ h.legs + tokens (run step h rs).1)
  unfolding run
  run-Counts h [] v = (v, refl, omega arith)
  run-Counts h (r ∷ rs) v =
      let c = on_response-Counts h r v in
      let later = run-Counts (on_response step h r).0 rs c.counted in
      (later.0, ground arith, Counts-tail h r rs c later.2)

  -- Whatever the upstream answers, and however the authenticator behaves, a handshake answers at
  -- most `max_legs` tokens, and `legs` reports exactly how many.
  pub tokens-run-le :
      (auth : C) (cap : ℕ) (rs : List UpstreamResponse)
      → cap < u32_modulus
      → (tokens (run step (with_max_legs (new auth) cap) rs).1 ≤ cap)
        × ((run step (with_max_legs (new auth) cap) rs).0.legs
            ≡ tokens (run step (with_max_legs (new auth) cap) rs).1)
  unfolding new with_max_legs
  tokens-run-le auth cap rs h =
      let start = with_max_legs (new auth) cap in
      let r =
        run-Counts start rs
          (record { within = omega arith; cap_is_u32 = h; unstarted = λ _. refl }) in
      (omega (arith, r.0.within), omega arith)
