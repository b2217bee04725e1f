-- ===== src/Proxy/Driver/Scheme.antt =====
-- One scheme for all legs of a connection, and Basic credentials that are sent once.
use zicade_rs.Prelude.{◌>>=◌, true, Option, some, [], ◌∷◌, List, Result, ok, err, ◌≡◌, refl, All}
use zicade_rs.Proxy.Driver.{
  build_proxy_authorization, negotiate_offer, Bytes, offer_challenge, AuthScheme,
  NegotiateHandshake, Str, StepFn, Base64, AuthState, UpstreamAuth, new_state, initial_header,
  on_challenge, negotiate_leg, advance_handshake, legs, Headers, keyword_for,
}

module _ {C : Type 0} (b : Base64) (step : StepFn C) where
  -- An answer is an error or a token under the keyword.
  abbrev pub Uses : AuthScheme → Result Str Str → Type 0
  Uses k (err why) = Unit {0}
  Uses k (ok v) = (token : Bytes) × (v ≡ build_proxy_authorization b k token)

  bind_token :
      (k : AuthScheme) (t : Result Str Bytes)
      → Uses k (t >>= λ token. ok (build_proxy_authorization b k token))
  bind_token k (ok token) = (token, refl)
  bind_token k (err why) = tt

  legs_learned :
      (h : NegotiateHandshake C) (k : AuthScheme) (hs : List Headers)
      → All (Uses k) (legs b step (AuthState.negotiate h (some k)) hs).0
  unfolding legs on_challenge negotiate_leg
  legs_learned h k [] = tt
  legs_learned h k (headers ∷ rest) =
      let o = advance_handshake b step h (offer_challenge (negotiate_offer b headers)) in
      (bind_token k o.0, legs_learned o.1 k rest)

  first_leg :
      (h : NegotiateHandshake C) (headers : Headers) (rest : List Headers)
      (found : Result Str AuthScheme)
      → keyword_for b Option.none headers ≡ found
      → ((h' : NegotiateHandshake C)
          → (k : AuthScheme) × All
              (Uses k)
              (legs b step (AuthState.negotiate h' Option.none) rest).0)
      → (k : AuthScheme) × All
          (Uses k)
          (legs b step (AuthState.negotiate h Option.none) (headers ∷ rest)).0
  unfolding legs on_challenge negotiate_leg
  first_leg h headers rest (ok k) e ih =
      let o = advance_handshake b step h (offer_challenge (negotiate_offer b headers)) in
      (k, rw (legs, e) (bind_token k o.0, legs_learned o.1 k rest))
  first_leg h headers rest (err why) e ih = let w = ih h in (w.0, rw (legs, e) (tt, w.1))

  -- Over all legs of a connection that starts without a keyword, there is one keyword that every
  -- value sent was built under, whichever keywords the later challenges name.
  pub legs-OneScheme :
      (h : NegotiateHandshake C) (hs : List Headers)
      → (k : AuthScheme) × All (Uses k) (legs b step (AuthState.negotiate h Option.none) hs).0
  unfolding legs
  legs-OneScheme h [] = (AuthScheme.negotiate, tt)
  legs-OneScheme h (headers ∷ rest) =
      first_leg h headers rest (keyword_for b Option.none headers) refl
        (λ h'. legs-OneScheme h' rest)

  abbrev pub Refused : Result Str Str → Type 0
  Refused (err why) = Unit {0}
  Refused (ok v) = ⊥

  basic_sent :
      (credentials : Str) (hs : List Headers)
      → All Refused (legs b step (AuthState.basic credentials true) hs).0
  unfolding legs on_challenge
  basic_sent credentials [] = tt
  basic_sent credentials (headers ∷ rest) = (tt, basic_sent credentials rest)

  -- Basic credentials go out with the first request, and no challenge is answered with them again.
  pub legs-initial_header :
      (credentials : Str) (hs : List Headers)
      → ((initial_header (new_state {C = C} (UpstreamAuth.basic credentials))).0 ≡ some credentials)
        × All Refused
            (legs b step (initial_header (new_state (UpstreamAuth.basic credentials))).1 hs).0
  unfolding initial_header new_state
  legs-initial_header credentials hs = (refl, basic_sent credentials hs)
