-- ===== src/Auth/Handshake/Finish.antt =====
-- A handshake that has finished stays finished.
use zicade_rs.Prelude.{◌≡◌, refl, ◌⊎◌, inl, inr, true, List, [], ◌∷◌, map, arith, ok, ℕ}
use zicade_rs.Auth.Handshake.{
  UpstreamResponse, success, other, complete, StepFn, NegotiateHandshake, on_response, run,
}

module _ {C : Type 0} (step : StepFn C) where
  run_done :
      (h : NegotiateHandshake C) (rs : List UpstreamResponse)
      → h.done ≡ true
      → run step h rs ≡ (h, map (λ _. ok complete) rs)
  unfolding run on_response
  run_done h [] e = refl
  run_done h (r ∷ rs) e = ground (arith, run_done h rs e)

  -- A response that is no 407 ends the handshake: every later response, a 407 too, is answered by
  -- `Complete`, and the authenticator's context stays as it was.
  pub run_after_end :
      (h : NegotiateHandshake C) (r : UpstreamResponse) (rs : List UpstreamResponse)
      → (r ≡ success) ⊎ ((status : ℕ) × (r ≡ other status))
      → run step h (r ∷ rs) ≡ (record h { done = true }, map (λ _. ok complete) (r ∷ rs))
  unfolding run on_response
  run_after_end h r rs (inl e) = ground (arith, run_done (record h { done = true }) rs refl)
  run_after_end h r rs (inr (status, e)) =
      ground (arith, run_done (record h { done = true }) rs refl)
