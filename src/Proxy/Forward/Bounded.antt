-- ===== src/Proxy/Forward/Bounded.antt =====
-- How a forwarded request's handshake ends.
use zicade_rs.Prelude.{
  ℕ, zero, suc, ◌+◌, ◌==◌, ◌≡◌, ◌≢◌, ◌≤◌, ◌<◌, Bool-cases, Result-cases, inl, inr, Option, some, [],
  ◌∷◌, Result, ok, err, refl, ap, ◌⊎◌, arith, length, length-append,
}
use zicade_rs.Proxy.Forward.{
  HttpClient, Sender, Parts, Request, Response, Str, Bytes, AuthState, UpstreamAuth, Base64, StepFn,
  send_leg, send_built, drain_challenge, forward_legs, forward_handshake, on_headers, max_legs,
  proxy_auth_status, upstream_request, new_state, initial_header,
}

module _ {U B W : Type 0} (http : HttpClient U B W) where
  -- One request more was sent, or none if the leg failed before it.
  abbrev Adds : Result Str (Response B) → ℕ → ℕ → Type 0
  Adds (ok resp) before after = after ≡ before + 1
  Adds (err e) before after = after ≤ before + 1

  abbrev SendsOne : Sender U W → Result Str (Response B) × Sender U W → Type 0
  SendsOne s r = Adds r.0 (length s.sent) (length r.1.sent)

  send_built-SendsOne :
      (q : Result Str (Request U)) (s : Sender U W) → SendsOne s (send_built http q s)
  send_built-SendsOne (err e) s = omega arith
  send_built-SendsOne (ok q) s = elim (Result-cases (http.send_request q s.conn).0) [
    | inl (r, e) ↦ rw e (length-append s.sent (q ∷ []))
    | inr (w, e) ↦ rw e (omega (arith, length-append s.sent (q ∷ [])))
  ]

  send_leg-SendsOne :
      (parts : Parts U) (body : Bytes) (header : Option Str) (s : Sender U W)
      → SendsOne s (send_leg http parts body header s)
  unfolding send_leg
  send_leg-SendsOne parts body header s = elim (Result-cases (http.ready s.conn).0) [
    | inl (u, e) ↦
        rw (send_leg, e)
          (send_built-SendsOne (upstream_request http parts body header)
            (record s { conn = (http.ready s.conn).1 }))
    | inr (w, e) ↦ rw (send_leg, e) (omega arith)
  ]

  pub drain-sent :
      (resp : Response B) (s : Sender U W) → (drain_challenge http resp s).1.sent ≡ s.sent
  unfolding drain_challenge
  drain-sent resp s = refl

  -- The end of a handshake that has `n` legs left, from its beginning at `s`.
  abbrev EndsIn : ℕ → Sender U W → Result Str (Response B × ℕ) × Sender U W → Type 0
  EndsIn n s (err e, s') = length s'.sent ≤ length s.sent + n
  EndsIn n s (ok (resp, legs), s') =
      (resp.status ≢ proxy_auth_status)
      × (max_legs < legs + n)
      × (legs ≤ max_legs)
      × (length s'.sent + max_legs ≡ length s.sent + legs + n)

  abbrev pub Ends : Sender U W → Result Str (Response B × ℕ) × Sender U W → Type 0
  Ends s r =
      (length r.1.sent ≤ length s.sent + max_legs)
      × (((e : Str) × (r.0 ≡ err e))
          ⊎ ((resp : Response B) × (legs : ℕ) × (r.0 ≡ ok (resp, legs))
              × (resp.status ≢ proxy_auth_status)
              × (1 ≤ legs)
              × (length r.1.sent ≡ length s.sent + legs)))

  EndsIn-Ends :
      (s : Sender U W) (r : Result Str (Response B × ℕ) × Sender U W)
      → EndsIn max_legs s r
      → Ends s r
  EndsIn-Ends s (err e, s') h = (h, inl (e, refl))
  EndsIn-Ends s (ok (resp, legs), s') h =
      (omega arith, inr (resp, legs, refl, h.0, omega arith, omega arith))

  module _ {C : Type 0} (b : Base64) (step : StepFn C) where
    EndsIn-leg :
        (n : ℕ) (s s' : Sender U W) (r : Result Str (Response B × ℕ) × Sender U W)
        → length s'.sent ≡ length s.sent + 1
        → EndsIn n s' r
        → EndsIn (suc n) s r
    EndsIn-leg n s s' (err e, s'') h i = omega arith
    EndsIn-leg n s s' (ok (resp, legs), s'') h i =
        (i.0, omega (arith, i.1), i.2, omega (arith, i.3))

    forward_legs-EndsIn :
        (n : ℕ) (parts : Parts U) (body : Bytes) (auth : AuthState C) (header : Option Str)
        (s : Sender U W)
        → n ≤ max_legs
        → EndsIn n s (forward_legs http b step n parts body auth header s)
    unfolding forward_legs
    forward_legs-EndsIn zero parts body auth header s h = omega arith
    forward_legs-EndsIn (suc n) parts body auth header s h =
        let sent = send_leg http parts body header s in
        let one = send_leg-SendsOne parts body header s in
        elim (Result-cases sent.0) [
          | inr (e, why) ↦
              rw (forward_legs, why)
                (let most : length sent.1.sent ≤ length s.sent + 1 = rw why at one in omega arith)
          | inl (resp, reply) ↦
              (let exactly : length sent.1.sent ≡ length s.sent + 1 = rw reply at one in
                let same : length (drain_challenge http resp sent.1).1.sent ≡ length sent.1.sent =
                  ap (λ l. length l) (drain-sent resp sent.1) in
                elim (Bool-cases (resp.status == proxy_auth_status)) [
                  | inr final ↦
                      rw (forward_legs, reply, final)
                        (ground arith, omega arith, omega arith, omega arith)
                  | inl challenged ↦
                      (let drained = drain_challenge http resp sent.1 in
                        let next = on_headers http b step drained.0 auth in
                        elim (Result-cases next.0) [
                          | inr (e, stop) ↦
                              rw (forward_legs, reply, challenged, stop)
                                (omega (arith, exactly, same))
                          | inl (value, go_on) ↦
                              rw (forward_legs, reply, challenged, go_on)
                                (EndsIn-leg n s drained.1 _ (omega (arith, exactly, same)) (
                                  forward_legs-EndsIn n parts body next.1 (some value) drained.1
                                    (omega arith)))
                        ])
                ])
        ]

    -- Over a connection on which each operation returns, with a result or an error, the handshake sends at
    -- most twelve requests, and it comes to a response that is no 407, reported with as many legs as
    -- requests were sent, or to an error. The code has no timeout of its own for an operation that does
    -- not return.
    pub forward_handshake-Ends :
        (parts : Parts U) (body : Bytes) (target_auth : UpstreamAuth C) (s : Sender U W)
        → Ends s (forward_handshake http b step parts body target_auth s)
    unfolding forward_handshake
    forward_handshake-Ends parts body target_auth s =
        let o = initial_header (new_state target_auth) in
        EndsIn-Ends s (forward_legs http b step max_legs parts body o.1 o.0 s)
          (forward_legs-EndsIn max_legs parts body o.1 o.0 s (omega arith))
