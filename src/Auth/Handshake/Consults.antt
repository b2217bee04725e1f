-- ===== src/Auth/Handshake/Consults.antt =====
-- What the authenticator is asked, by an authenticator that writes down its challenges.
use zicade_rs.Prelude.{◌≡◌, true, Option, none, some, List, [], ◌∷◌, arith, All}
use zicade_rs.Auth.Handshake.{
  Bytes, UpstreamResponse, proxy_auth_required, StepFn, NegotiateHandshake, after_step, on_response,
  run,
}

-- Any authenticator, with the challenges that it was given, the newest first.
abbrev pub recording : {C : Type 0} → StepFn C → StepFn (C × List (Option Bytes))
recording step (c, log) challenge = let (c', r) = step c challenge in ((c', challenge ∷ log), r)

abbrev pub HasToken : Option Bytes → Type 0
HasToken none = ⊥
HasToken (some t) = Unit {0}

-- A started handshake whose log holds only challenges with a token.
record IsAnswering {C : Type 0} (h : NegotiateHandshake (C × List (Option Bytes))) : Type 0 where
  begun : h.started ≡ true
  all_tokens : All HasToken h.auth.1

module _ {C : Type 0} (step : StepFn C) where
  after_step-IsAnswering :
      (h : NegotiateHandshake (C × List (Option Bytes))) (t : Bytes)
      → IsAnswering h
      → IsAnswering (after_step (recording step) h (recording step h.auth (some t))).0
  after_step-IsAnswering h t v = ground arith

  on_response-IsAnswering :
      (h : NegotiateHandshake (C × List (Option Bytes))) (r : UpstreamResponse)
      → IsAnswering h
      → IsAnswering (on_response (recording step) h r).0
  unfolding on_response
  on_response-IsAnswering h (proxy_auth_required none) v = ground arith
  on_response-IsAnswering h (proxy_auth_required (some t)) v =
      ground (arith, after_step-IsAnswering h t v)
  on_response-IsAnswering h _ v = ground arith

  run-IsAnswering :
      (h : NegotiateHandshake (C × List (Option Bytes))) (rs : List UpstreamResponse)
      → IsAnswering h
      → IsAnswering (run (recording step) h rs).0
  unfolding run
  run-IsAnswering h [] v = v
  run-IsAnswering h (r ∷ rs) v =
      run-IsAnswering (on_response (recording step) h r).0 rs (on_response-IsAnswering h r v)

  -- Once a token has been sent, the authenticator is never consulted again without a challenge
  -- token: a 407 that carries none is refused without asking it.
  pub run-HasToken :
      (h : NegotiateHandshake (C × List (Option Bytes))) (rs : List UpstreamResponse)
      → h.started ≡ true
      → h.auth.1 ≡ []
      → All HasToken (run (recording step) h rs).0.auth.1
  run-HasToken h rs s e =
      (run-IsAnswering h rs (record { begun = s; all_tokens = ground arith })).all_tokens
