-- ===== src/Proxy/Tunnel/Close.antt =====
-- When a tunnel's close is clean, whom a failure is blamed on, and what the counters hold.
use zicade_rs.Prelude.{
  ◌⊎◌, ◌≢◌, max, min, ◌≤◌, ◌<◌, ℕ, ◌+◌, ◌%◌, true, false, some, [], ◌∷◌, List, Result, ok, err, ◌≡◌,
  ◌↔◌, arith,
}
use zicade_rs.Proxy.Tunnel.{
  Str, Direction, Op, Outcome, eof, failed, PumpResult, Fate, settle, splice, close, real_failure,
  from_res, drain_other, wait_for, who_reset, Event, chunk, accepted, Written, PumpState, pump,
  count_chunk, u64_modulus,
}

abbrev pub IsWriteFailure : Outcome → Type 0
IsWriteFailure (failed e) = e.op ≡ Op.write
IsWriteFailure _ = ⊥

abbrev pub IsClean : Result (Str × Str) (Unit {0}) → Type 0
IsClean (ok u) = Unit {0}
IsClean (err e) = ⊥

-- Whichever direction settles first, and whatever the other comes to, the close is clean exactly if
-- the download was seen to end and the upload did not fail in a write: a transfer that was given
-- up on is never counted as complete, and a client's reset after the response never as a failure.
pub splice_iff :
    (first : Direction) (r : PumpResult) (other : Fate)
    → IsClean (splice first r other)
      ↔ ((settle first r other).1 ≡ eof) × ¬ IsWriteFailure (settle first r other).0
unfolding splice settle close real_failure from_res drain_other wait_for who_reset
splice_iff first r other = ground arith

-- The bytes of the chunks that were written whole, before the first event that ends the loop.
abbrev pub whole_chunks : List Event → ℕ
whole_chunks (chunk n accepted ∷ rest) = n + whole_chunks rest
whole_chunks _ = 0

-- The bytes that the sink took, with those of a chunk whose write did not come to its end.
abbrev pub taken_bytes : List Event → ℕ
taken_bytes (chunk n accepted ∷ rest) = n + taken_bytes rest
taken_bytes (chunk n (Written.stalled part) ∷ rest) = min part n
taken_bytes (chunk n (Written.refused part why) ∷ rest) = min part n
taken_bytes _ = 0

-- The size of the largest chunk.
abbrev pub largest : List Event → ℕ
largest [] = 0
largest (chunk n w ∷ rest) = max n (largest rest)
largest (_ ∷ rest) = largest rest

abbrev pub total : List ℕ → ℕ
total [] = 0
total (n ∷ ns) = n + total ns

-- The counter of a direction has grown by the bytes of the chunks that were written whole, modulo 2^64,
-- and the chunks reported as relayed are as many bytes. The sink took those and at most a part of one
-- chunk more, and nothing more if the pump ended without an error. The sink is half-closed exactly when
-- the pump ends without an error, for a sink that was open.
pub pump-whole_chunks :
    (events : List Event) (s : PumpState)
    → s.shut_down ≡ false
    → s.counter < u64_modulus
    → ((pump events s).1.counter ≡ (s.counter + whole_chunks events) % u64_modulus)
      × (total (pump events s).1.relayed ≡ total s.relayed + whole_chunks events)
      × (whole_chunks events ≤ taken_bytes events)
      × (taken_bytes events ≤ whole_chunks events + largest events)
      × (((pump events s).0 ≢ some (ok tt)) ⊎ (taken_bytes events ≡ whole_chunks events))
      × (((pump events s).1.shut_down ≡ true) ↔ ((pump events s).0 ≡ some (ok tt)))
unfolding pump
pump-whole_chunks [] s h k = ground arith
pump-whole_chunks (Event.end_of_file ∷ rest) s h k = ground arith
pump-whole_chunks (Event.read_failed why ∷ rest) s h k = ground arith
pump-whole_chunks (chunk n (Written.stalled part) ∷ rest) s h k = ground arith
pump-whole_chunks (chunk n (Written.refused part why) ∷ rest) s h k = ground arith
pump-whole_chunks (chunk n accepted ∷ rest) s h k =
    let ih = pump-whole_chunks rest (count_chunk n s) h (omega arith) in ground (arith, ih)
