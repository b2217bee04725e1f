-- ===== src/Observe/Ring.antt =====
-- The ring is the end of what was sent, for pushes one after the other.
use mathlib.Core.List.{append_assoc}
use zicade_rs.Prelude.{
  Bool, true, false, ==_iff, ℕ, suc, ◌≤◌, [], ◌∷◌, ◌++◌, List, ◌≡◌, refl, sym, ap, ◌∙◌, arith,
  length, length-append, min, Bool-cases, inl, inr, ◌==◌, if◌then◌else◌,
}
use zicade_rs.Observe.{LogStore, LogEvent, push, push_all, new_store, stamp, pop_oldest}

module _ {E : Type 0} where
  -- The ring holds the last events that were sent: all of them, or as many as it has room for.
  abbrev pub IsEndOf : List (LogEvent E) → ℕ → List (LogEvent E) → Type 0
  IsEndOf sent cap ring =
      (length ring ≡ min (length sent) cap)
      × (evicted : List (LogEvent E)) × (sent ≡ evicted ++ ring)

  kept_nil : (b : Bool) → (if b then pop_oldest {E = E} [] else []) ≡ []
  kept_nil true = refl
  kept_nil false = refl

  -- A ring stays the end of a list when the next event is put at the end of both.
  pub evict :
      (ring evicted sent : List (LogEvent E)) (e : LogEvent E) (cap : ℕ)
      → 1 ≤ cap
      → length ring ≡ min (length sent) cap
      → sent ≡ evicted ++ ring
      → IsEndOf
          (sent ++ (e ∷ []))
          cap
          ((if length ring == cap then pop_oldest ring else ring) ++ (e ∷ []))
  evict [] evicted sent e cap room full split = (
    ground (arith, length-append sent (e ∷ [])),
    evicted,
    rw (kept_nil (0 == cap)) (ap (λ t. t ++ (e ∷ [])) split ∙ append_assoc evicted [] (e ∷ [])),
  )
  evict (x ∷ xs) evicted sent e cap room full split = elim (Bool-cases (suc (length xs) == cap)) [
    | inl stop ↦ rw stop (
      omega (
        arith,
        full,
        length-append sent (e ∷ []),
        length-append xs (e ∷ []),
        (==_iff (suc (length xs)) cap).0 stop,
      ),
      evicted ++ (x ∷ []),
      ap (λ t. t ++ (e ∷ [])) split
          ∙ append_assoc evicted (x ∷ xs) (e ∷ [])
          ∙ sym (append_assoc evicted (x ∷ []) (xs ++ (e ∷ []))),
    )
    | inr go_on ↦ rw go_on (
      ground (arith, full, length-append sent (e ∷ []), length-append xs (e ∷ []), go_on),
      evicted,
      ap (λ t. t ++ (e ∷ [])) split ∙ append_assoc evicted (x ∷ xs) (e ∷ []),
    )
  ]

  pub record IsRing (s : LogStore E) : Type 0 where
    pub some_room : 1 ≤ s.cap
    pub end_of_sent : IsEndOf s.sent s.cap s.ring

  push-IsRing : (e : E) (s : LogStore E) → IsRing s → IsRing (push e s)
  unfolding push
  push-IsRing e s v = record {
    some_room = v.some_room;
    end_of_sent =
        evict s.ring v.end_of_sent.1 s.sent (stamp e s) s.cap v.some_room v.end_of_sent.0
          v.end_of_sent.2;
  }

  push_all-kept : (es : List E) (s : LogStore E) → IsRing s → IsRing (push_all es s)
  unfolding push_all
  push_all-kept [] s v = v
  push_all-kept (e ∷ es) s v = push_all-kept es (push e s) (push-IsRing e s v)

  -- After any pushes, one after the other, the ring holds the last events that were broadcast, in their
  -- order and with their stamps: all of them while they fit, and then as many as the capacity, which is at least one.
  pub push_all-IsRing : (cap : ℕ) (es : List E) → IsRing (push_all es (new_store cap))
  unfolding new_store
  push_all-IsRing cap es =
      push_all-kept es (new_store cap)
        (record { some_room = omega arith; end_of_sent = (omega arith, [], refl) })
