-- ===== src/Tests/Auth.antt =====
-- Runs of the handshake machine and of the header codec.
use zicade_rs.Prelude.{false, Option, true, arith, ℕ, ◌≡◌, ◌≤◌, ◌∷◌, [], some, none, List}
use zicade_rs.Auth.Handshake.{
  UpstreamResponse, proxy_auth_required, run, new, with_max_legs, NegotiateHandshake,
}
use zicade_rs.Auth.Handshake.Legs.{tokens, tokens-run-le}
use zicade_rs.Auth.Header.{parse_proxy_authenticate, build_proxy_authorization, challenge, ntlm}
use zicade_rs.Auth.Header.RoundTrip.{parse_proxy_authenticate-build}
use zicade_rs.Tests.Data.{counting_step, shifting, shifting-IsBase64}

abbrev three_challenges : List UpstreamResponse
three_challenges =
    proxy_auth_required none
    ∷ proxy_auth_required (some (1 ∷ []))
    ∷ proxy_auth_required (some (2 ∷ []))
    ∷ []

tokens-run-le_example :
    (tokens (run counting_step (with_max_legs (new 0) 2) three_challenges).1 ≤ 2)
    × ((run counting_step (with_max_legs (new 0) 2) three_challenges).0.legs
        ≡ tokens (run counting_step (with_max_legs (new 0) 2) three_challenges).1)
tokens-run-le_example = tokens-run-le counting_step 0 2 three_challenges (omega arith)

abbrev begun : NegotiateHandshake (ℕ × List (Option (List ℕ)))
begun = record { auth = (1, []); legs = 1; max_legs = 10; started = true; done = false }

parse_proxy_authenticate-build_example :
    parse_proxy_authenticate shifting (build_proxy_authorization shifting ntlm (78 ∷ 84 ∷ []))
    ≡ challenge ntlm (78 ∷ 84 ∷ [])
parse_proxy_authenticate-build_example =
    parse_proxy_authenticate-build shifting shifting-IsBase64 ntlm (78 ∷ 84 ∷ []) (λ e. cc)
      (omega arith, (omega arith, tt))
