-- ===== src/Observe/Interleaved.antt =====
-- The ring and the broadcast while pushes of several threads interleave.
use zicade_rs.Prelude.{ℕ, ◌+◌, ◌≡◌, ◌≤◌, Bool, List, [], ◌∷◌, ◌++◌, refl, ap, arith, if◌then◌else◌}
use zicade_rs.Observe.{
  LogEvent, new_store, Pushes, no_pushes, Step, counts, buffers, sends, Reach, here, next,
}
use zicade_rs.Observe.Ring.{IsEndOf, evict}

module _ {E : Type 0} where
  -- How many of the events pass a test.
  abbrev pub tally : (LogEvent E → Bool) → List (LogEvent E) → ℕ
  tally t [] = 0
  tally t (x ∷ xs) = (if t x then 1 else 0) + tally t xs

  tally-append :
      (t : LogEvent E → Bool) (xs ys : List (LogEvent E))
      → tally t (xs ++ ys) ≡ tally t xs + tally t ys
  tally-append t [] ys = omega arith
  tally-append t (x ∷ xs) ys = omega (arith, tally-append t xs ys)

  pub record IsInterleaved (p : Pushes E) : Type 0 where
    pub some_room : 1 ≤ p.store.cap
    pub end_of_buffered : IsEndOf p.buffered p.store.cap p.store.ring
    pub sent_once :
        (t : LogEvent E → Bool) → tally t p.buffered ≡ tally t p.store.sent + tally t p.kept

  Step-IsInterleaved : {p q : Pushes E} → Step p q → IsInterleaved p → IsInterleaved q
  Step-IsInterleaved (counts p e) v = record {
    some_room = v.some_room;
    end_of_buffered = v.end_of_buffered;
    sent_once = v.sent_once;
  }
  Step-IsInterleaved (buffers p before after event at) v = record {
    some_room = v.some_room;
    end_of_buffered =
        evict p.store.ring v.end_of_buffered.1 p.buffered event p.store.cap v.some_room
          v.end_of_buffered.0 v.end_of_buffered.2;
    sent_once = λ t. omega (arith, v.sent_once t, tally-append t p.buffered (event ∷ []));
  }
  Step-IsInterleaved (sends p before after event at) v = record {
    some_room = v.some_room;
    end_of_buffered = v.end_of_buffered;
    sent_once = λ t. omega (
      arith,
      v.sent_once t,
      ap (tally t) at,
      tally-append t before (event ∷ after),
      tally-append t before after,
      tally-append t p.store.sent (event ∷ []),
    );
  }

  no_pushes-IsInterleaved : (cap : ℕ) → IsInterleaved (no_pushes cap)
  unfolding new_store
  no_pushes-IsInterleaved cap = record {
    some_room = omega arith;
    end_of_buffered = (omega arith, [], refl);
    sent_once = λ t. refl;
  }

  -- However the operations of the pushes of several threads interleave, the ring holds the last events
  -- that were put in it, in that order: all of them while they fit, and then as many as the capacity,
  -- which is at least one. The events that were ever put in it are, each as often, those that were
  -- broadcast, maybe in another order, and those whose push has yet to send them.
  pub Reach-IsInterleaved : (cap : ℕ) {p : Pushes E} → Reach (no_pushes cap) p → IsInterleaved p
  Reach-IsInterleaved cap here = no_pushes-IsInterleaved cap
  Reach-IsInterleaved cap (next r st) = Step-IsInterleaved st (Reach-IsInterleaved cap r)
