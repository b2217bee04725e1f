-- ===== src/Proxy/Wire/Drained.antt =====
-- Draining a chunked body ends within its fuel.
use mathlib.Core.List.{append_assoc}
use zicade_rs.Prelude.{
  Option-cases, ◌>>=◌, ℕ, zero, suc, ◌+◌, ◌≤◌, ◌<◌, Bool-cases, some, [], ◌∷◌, ◌++◌, List, Result,
  Result-cases, ok, err, ◌≡◌, refl, sym, ap, ◌∙◌, ◌==◌, arith, inl, inr, length, ltb,
}
use zicade_rs.Proxy.Wire.{
  max_head_bytes, is_chunked, content_length, too_large, Headers, max_drain_bytes, Str, Bytes,
  Input, byte, broken, IoError, read_line, read_line_from, skip, discard, drain_chunks,
  drain_chunked, drain_body, chunk_size, last_line,
}

read_line_from-le :
    (buf : Bytes) (input : List Input) → length (read_line_from buf input).1 ≤ length input
unfolding read_line_from
read_line_from-le buf [] = omega arith
read_line_from-le buf (broken e ∷ rest) = omega arith
read_line_from-le buf (byte c ∷ rest) = ground (arith, read_line_from-le (buf ++ (c ∷ [])) rest)

skip-le : (n : ℕ) (input : List Input) → length (skip n input).1 ≤ length input
unfolding skip
skip-le zero input = omega arith
skip-le (suc n) [] = omega arith
skip-le (suc n) (broken e ∷ rest) = omega arith
skip-le (suc n) (byte c ∷ rest) = omega (arith, skip-le n rest)

discard-le : (n : ℕ) (input : List Input) → length (discard n input).1 ≤ length input
unfolding discard
discard-le n input = ground (arith, skip-le n input)

-- A chunk's bytes are taken when they are skipped without an error.
discard-lt :
    (n : ℕ) (input : List Input) {u : Unit {0}}
    → (discard (suc n) input).0 ≡ ok u
    → length (discard (suc n) input).1 < length input
unfolding discard skip
discard-lt n [] h = ground arith
discard-lt n (broken e ∷ rest) h = ground arith
discard-lt n (byte c ∷ rest) h = ground (arith, skip-le n rest)

-- What is left of an input is its end: bytes are taken from its front only.
abbrev pub IsRestOf : List Input → List Input → Type 0
IsRestOf rest input = (taken : List Input) × (input ≡ taken ++ rest)

IsRestOf-cons :
    (x : Input) (rest input : List Input) → IsRestOf rest input → IsRestOf rest (x ∷ input)
IsRestOf-cons x rest input (taken, e) = (x ∷ taken, ap (λ l. x ∷ l) e)

IsRestOf-trans : (a b c : List Input) → IsRestOf a b → IsRestOf b c → IsRestOf a c
IsRestOf-trans a b c (s, e) (t, f) = (t ++ s, f ∙ ap (λ l. t ++ l) e ∙ sym (append_assoc t s a))

read_line_from-IsRestOf :
    (buf : Bytes) (input : List Input) → IsRestOf (read_line_from buf input).1 input
unfolding read_line_from
read_line_from-IsRestOf buf [] = ([], refl)
read_line_from-IsRestOf buf (broken e ∷ rest) = (broken e ∷ [], refl)
read_line_from-IsRestOf buf (byte c ∷ rest) =
    let line = buf ++ (c ∷ []) in
    elim (Bool-cases (c == 10)) [
      | inl ends ↦ rw ends (byte c ∷ [], refl)
      | inr on ↦ elim (Bool-cases (ltb max_head_bytes (length line))) [
        | inl long ↦ rw (on, long) (byte c ∷ [], refl)
        | inr short ↦
            rw (on, short) (IsRestOf-cons (byte c) _ rest (read_line_from-IsRestOf line rest))
      ]
    ]

skip-IsRestOf : (n : ℕ) (input : List Input) → IsRestOf (skip n input).1 input
unfolding skip
skip-IsRestOf zero input = ([], refl)
skip-IsRestOf (suc n) [] = ([], refl)
skip-IsRestOf (suc n) (broken e ∷ rest) = (broken e ∷ [], refl)
skip-IsRestOf (suc n) (byte c ∷ rest) =
    IsRestOf-cons (byte c) (skip n rest).1 rest (skip-IsRestOf n rest)

discard-IsRestOf : (n : ℕ) (input : List Input) → IsRestOf (discard n input).1 input
unfolding discard
discard-IsRestOf n input = elim (Bool-cases (ltb max_drain_bytes n)) [
  | inl large ↦ rw large ([], refl)
  | inr small ↦ rw small (skip-IsRestOf n input)
]

last_line-IsRestOf :
    (r : Result IoError Str × List Input) (input : List Input)
    → IsRestOf r.1 input
    → IsRestOf (last_line r).1 input
last_line-IsRestOf (ok line, rest) input h = h
last_line-IsRestOf (err e, rest) input h = h

module _ (lossy : Bytes → Str) where
  read_line-IsRestOf : (input : List Input) → IsRestOf (read_line lossy input).1 input
  unfolding read_line
  read_line-IsRestOf input = read_line_from-IsRestOf [] input

  read_line-le : (input : List Input) → length (read_line lossy input).1 ≤ length input
  unfolding read_line
  read_line-le input = read_line_from-le [] input

  drain_chunks-total :
      (f total : ℕ) (input : List Input)
      → length input < f
      → (d : Result IoError (Unit {0}) × List Input) × (drain_chunks lossy f total input ≡ some d)
        × IsRestOf d.1 input
  unfolding drain_chunks
  drain_chunks-total zero total input h = elim h [ ]
  drain_chunks-total (suc f) total input h =
      let line = read_line lossy input in
      let read : IsRestOf line.1 input = read_line-IsRestOf input in
      elim (Result-cases (line.0 >>= chunk_size)) [
        | inr (e, bad) ↦ ((err e, line.1), rw (drain_chunks, bad) refl, read)
        | inl (zero, last) ↦ (
          last_line (read_line lossy line.1),
          rw (drain_chunks, last) refl,
          last_line-IsRestOf (read_line lossy line.1) input
              (IsRestOf-trans _ line.1 input (read_line-IsRestOf line.1) read),
        )
        | inl (suc n, size) ↦
            (let skipped = discard (suc n) line.1 in
              let ending = read_line lossy skipped.1 in
              let passed : IsRestOf skipped.1 input =
                IsRestOf-trans skipped.1 line.1 input (discard-IsRestOf (suc n) line.1) read in
              let after : IsRestOf ending.1 input =
                IsRestOf-trans ending.1 skipped.1 input (read_line-IsRestOf skipped.1) passed in
              elim (Bool-cases (ltb max_drain_bytes (total + suc n))) [
                | inl large ↦ ((err too_large, line.1), rw (drain_chunks, size, large) refl, read)
                | inr room ↦ elim (Result-cases skipped.0) [
                  | inr (e, cut) ↦
                      ((err e, skipped.1), rw (drain_chunks, size, room, cut) refl, passed)
                  | inl (u, whole) ↦ elim (Result-cases ending.0) [
                    | inr (e, cut) ↦
                        ((err e, ending.1), rw (drain_chunks, size, room, whole, cut) refl, after)
                    | inl (end_line, ended) ↦
                        (let ih = drain_chunks-total f (total + suc n) ending.1 (
                            omega (
                              arith,
                              h,
                              read_line-le input,
                              discard-lt n line.1 whole,
                              read_line-le skipped.1,
                            )) in
                          (
                            ih.0,
                            rw (drain_chunks, size, room, whole, ended) ih.1,
                            IsRestOf-trans ih.0.1 ending.1 input ih.2 after,
                          ))
                  ]
                ]
              ])
      ]

  -- Over an input that comes to an end, the bytes that an upstream sends before it closes or fails,
  -- draining a body ends, with success or an error, and what is left in the socket is an end of the
  -- input: a round of the chunk loop takes bytes of the input, so the fuel is enough. An upstream that stalls is a matter of the timeout around the handshake.
  pub drain_body-total :
      (headers : Headers) (input : List Input)
      → (d : Result IoError (Unit {0}) × List Input) × (drain_body lossy headers input ≡ some d)
        × IsRestOf d.1 input
  unfolding drain_body drain_chunked
  drain_body-total headers input = elim (Option-cases (content_length headers)) [
    | inr (len, sized) ↦
        (discard len input, rw (drain_body, sized) refl, discard-IsRestOf len input)
    | inl unsized ↦ elim (Bool-cases (is_chunked headers)) [
      | inl chunked ↦
          (let w = drain_chunks-total (suc (length input)) 0 input (omega arith) in
            (w.0, rw (drain_body, unsized, chunked) w.1, w.2))
      | inr unframed ↦ ((ok tt, input), rw (drain_body, unsized, unframed) refl, ([], refl))
    ]
  ]
