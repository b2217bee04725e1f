-- ===== src/Proxy/Connect/Legs.antt =====
-- How many requests a handshake sends.
use zicade_rs.Proxy.Wire.Drained.{drain_body-total}
use zicade_rs.Prelude.{
  map_err, ◌==◌, ◌>>◌, ℕ, zero, suc, ◌+◌, Bool, false, Bool-cases, Option-cases, Result-cases,
  Option, some, [], ◌∷◌, Result, ok, err, ◌≡◌, inl, inr, refl, arith, length, length-append, ◌≤◌,
}
use zicade_rs.Proxy.Wire.{Stream, Head, write_all}
use zicade_rs.Proxy.Connect.{
  failed, new_state, initial_header, AuthState, UpstreamAuth, StepFn, Base64, Str, Bytes,
  handshake_legs, handshake, send_leg, drain_leg, answer, Failure, connect_request, max_legs,
}

module _ (lossy : Bytes → Str) where
  send_leg-written :
      (first_reused : Bool) (dst : Str) (header : Option Str) (s : Stream)
      → length (send_leg lossy first_reused dst header s).1.written ≡ length s.written + 1
  unfolding send_leg write_all
  send_leg-written first_reused dst header s =
      ground (arith, length-append s.written (connect_request dst header ∷ []))

  drain_leg-written :
      (head : Head) (s : Stream) {d : Result Failure (Unit {0}) × Stream}
      → drain_leg lossy head s ≡ some d
      → length d.1.written ≡ length s.written
  unfolding drain_leg
  drain_leg-written head s h = ground arith

  drain_leg-total :
      (head : Head) (s : Stream)
      → (d : Result Failure (Unit {0}) × Stream) × (drain_leg lossy head s ≡ some d)
  unfolding drain_leg
  drain_leg-total head s =
      let w = drain_body-total lossy head.1 s.input in
      ((map_err failed w.0.0, record s { input = w.0.1 }), rw (drain_leg, w.1) refl)

  module _ {C : Type 0} (b : Base64) (step : StepFn C) where
    legs-written :
        (n : ℕ) (first_reused : Bool) (dst : Str) (auth : AuthState C) (header : Option Str)
        (s s' : Stream) (r : Result Failure (Unit {0}))
        → handshake_legs lossy b step n first_reused dst auth header s ≡ some (r, s')
        → length s'.written ≤ length s.written + n
    unfolding handshake_legs
    legs-written zero first_reused dst auth header s s' r h = ground arith
    legs-written (suc n) first_reused dst auth header s s' r h =
        let sent = send_leg lossy first_reused dst header s in
        let one = send_leg-written first_reused dst header s in
        elim (Result-cases sent.0) [
          | inr (f, why) ↦ ground (arith, why, one)
          | inl (head, reply) ↦ elim (Option-cases (drain_leg lossy head sent.1)) [
            | inl gone ↦ ground (arith, reply, gone, one)
            | inr (d, drained) ↦
                (let same = drain_leg-written head sent.1 {d = d} drained in
                  elim (Result-cases (d.0 >> (answer lossy b step auth head).0)) [
                    | inr (f, stop) ↦ ground (arith, reply, drained, stop, one, same)
                    | inl (value, go_on) ↦ ground (
                      arith,
                      reply,
                      drained,
                      go_on,
                      one,
                      same,
                      legs-written n false dst (answer lossy b step auth head).1 (some value) d.1 s'
                          r,
                    )
                  ])
          ]
        ]

    legs-total :
        (n : ℕ) (first_reused : Bool) (dst : Str) (auth : AuthState C) (header : Option Str)
        (s : Stream)
        → (d : Result Failure (Unit {0}) × Stream) × (handshake_legs lossy b step n first_reused dst
              auth header s
            ≡ some d)
    unfolding handshake_legs
    legs-total zero first_reused dst auth header s = (_, refl)
    legs-total (suc n) first_reused dst auth header s =
        let sent = send_leg lossy first_reused dst header s in
        elim (Result-cases sent.0) [
          | inr (f, why) ↦ ((err f, sent.1), rw (handshake_legs, why) refl)
          | inl (head, reply) ↦ elim (Bool-cases (head.0 == 200)) [
            | inl granted ↦ ((ok tt, sent.1), rw (handshake_legs, reply, granted) refl)
            | inr refused ↦
                (let w = drain_leg-total head sent.1 in
                  let d = w.0 in
                  elim (Result-cases (d.0 >> (answer lossy b step auth head).0)) [
                    | inr (f, stop) ↦
                        ((err f, d.1), rw (handshake_legs, reply, refused, w.1, stop) refl)
                    | inl (value, go_on) ↦
                        (let rest =
                            legs-total n false dst (answer lossy b step auth head).1 (some value)
                              d.1 in
                          (rest.0, rw (handshake_legs, reply, refused, w.1, go_on) rest.1))
                  ])
          ]
        ]

    -- Over the input that the upstream sends, a handshake always comes to an end, with the tunnel or
    -- an error, and it has sent at most twelve requests, whatever the upstream answers.
    pub handshake-le-max_legs :
        (s : Stream) (reused : Bool) (target_auth : UpstreamAuth C) (dst : Str)
        → (d : Result Failure (Unit {0}) × Stream) × (handshake lossy b step s reused target_auth
              dst
            ≡ some d)
          × (length d.1.written ≤ length s.written + max_legs)
    unfolding handshake
    handshake-le-max_legs s reused target_auth dst =
        let o = initial_header (new_state target_auth) in
        let w = legs-total max_legs reused dst o.1 o.0 s in
        (w.0, w.1, legs-written max_legs reused dst o.1 o.0 s w.0.1 w.0.0 w.1)
