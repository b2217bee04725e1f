-- ===== src/Ui/LogBuffer/Replay.antt =====
-- The backlog and the live events of the store, in the view's buffer.
use mathlib.Core.List.{append_assoc, append-nil}
use zicade_rs.Prelude.{
  ℕ, ◌+◌, ◌%◌, ◌==◌, ◌-◌, ◌≡◌, ◌≤◌, ◌<◌, false, List, [], ◌∷◌, ◌++◌, length, length-append, drop,
  max, refl, sym, ap, ◌∙◌, arith, leb, not, ◌&&◌, if◌then◌else◌,
}
use zicade_rs.Observe.{LogEvent, LogStore, new_store, u64_range, stamp, received, broadcast_depth}
use zicade_rs.Observe.Ring.{push_all-IsRing}
use zicade_rs.Ui.LogBuffer.{LogBuffer, new, push, push_all, pop_front}
use zicade_rs.Observe as Store

module _ {E : Type 0} where
  -- Events with the numbers that follow `n`.
  abbrev stamped : ℕ → List E → List (LogEvent E)
  stamped n [] = []
  stamped n (e ∷ es) = record { seq = n + 1; event = e } ∷ stamped (n + 1) es

  length-stamped : (n : ℕ) (es : List E) → length (stamped n es) ≡ length es
  length-stamped n [] = refl
  length-stamped n (e ∷ es) = omega (arith, length-stamped (n + 1) es)

  stamped-append :
      (n : ℕ) (xs ys : List E) → stamped n (xs ++ ys) ≡ stamped n xs ++ stamped (n + length xs) ys
  stamped-append n [] ys = ap (λ k. stamped k ys) (omega arith)
  stamped-append n (x ∷ xs) ys =
      ap (λ l. record { seq = n + 1; event = x } ∷ l)
        (stamped-append (n + 1) xs ys ∙ ap (λ k. stamped (n + 1) xs ++ stamped k ys) (omega arith))

  -- What a store sends is numbered on from its counter.
  push_all-sent :
      (es : List E) (s : LogStore E)
      → s.seq + length es < u64_range
      → ((Store.push_all es s).sent ≡ s.sent ++ stamped s.seq es)
        × ((Store.push_all es s).seq ≡ s.seq + length es)
  unfolding Store.push_all Store.push
  push_all-sent [] s h = (sym (append-nil s.sent), omega arith)
  push_all-sent (e ∷ es) s h =
      let one : (s.seq + 1) % u64_range ≡ s.seq + 1 = omega arith in
      let (sent, counter) = push_all-sent es (Store.push e s) (omega (arith, one)) in
      (
        sent
            ∙ ap (λ k. (s.sent ++ (record { seq = k; event = e } ∷ [])) ++ stamped k es) one
            ∙ append_assoc s.sent (record { seq = s.seq + 1; event = e } ∷ [])
                (stamped (s.seq + 1) es),
        omega (arith, counter, one),
      )

  same_buffer :
      (capacity : ℕ) {m n : ℕ} {xs ys : List (LogEvent E)}
      → m ≡ n
      → xs ≡ ys
      → Path
          (LogBuffer E)
          (record { capacity = capacity; last_seq = m; events = xs })
          (record { capacity = capacity; last_seq = n; events = ys })
  same_buffer capacity p q = λ i. record { capacity = capacity; last_seq = p i; events = q i }

  push-known : (e : LogEvent E) (b : LogBuffer E) → 1 ≤ e.seq → e.seq ≤ b.last_seq → push e b ≡ b
  unfolding push
  push-known e b h k = ground arith

  -- The next event is shown.
  push-next :
      (e : LogEvent E) (b : LogBuffer E)
      → e.seq ≡ b.last_seq + 1
      → length b.events < b.capacity
      → push e b ≡ record b { last_seq = e.seq; events = b.events ++ (e ∷ []) }
  unfolding push
  push-next e b h room =
      let fresh : (not (e.seq == 0) && leb e.seq b.last_seq) ≡ false = ground arith in
      let roomy : (length b.events == b.capacity) ≡ false = ground arith in
      let newest : max b.last_seq e.seq ≡ e.seq = omega arith in
      rw (push, fresh)
        (same_buffer b.capacity newest
          (ap (λ full. (if full then pop_front b.events else b.events) ++ (e ∷ [])) roomy))

  push_all-newer :
      (n : ℕ) (es : List E) (b : LogBuffer E)
      → b.last_seq ≡ n
      → length b.events + length es ≤ b.capacity
      → push_all (stamped n es) b
        ≡ record b { last_seq = n + length es; events = b.events ++ stamped n es }
  unfolding push_all
  push_all-newer n [] b h room =
      same_buffer b.capacity (omega (arith, h)) (sym (append-nil b.events))
  push_all-newer n (e ∷ es) b h room =
      let event : LogEvent E = record { seq = n + 1; event = e } in
      let b' : LogBuffer E = record b { last_seq = n + 1; events = b.events ++ (event ∷ []) } in
      ap (push_all (stamped (n + 1) es)) (push-next event b (omega arith) (omega arith))
      ∙ push_all-newer (n + 1) es b' refl (omega (arith, length-append b.events (event ∷ [])))
      ∙ same_buffer b.capacity (omega arith)
          (append_assoc b.events (event ∷ []) (stamped (n + 1) es))

  -- Events that were shown are not shown again.
  push_all-older :
      (n : ℕ) (es : List E) (b : LogBuffer E)
      → n + length es ≤ b.last_seq
      → push_all (stamped n es) b ≡ b
  unfolding push_all
  push_all-older n [] b h = refl
  push_all-older n (e ∷ es) b h =
      let event : LogEvent E = record { seq = n + 1; event = e } in
      ap (push_all (stamped (n + 1) es)) (push-known event b (omega arith) (omega arith))
      ∙ push_all-older (n + 1) es b (omega arith)

  drop-append : (xs ys : List (LogEvent E)) → drop (length xs) (xs ++ ys) ≡ ys
  drop-append [] ys = refl
  drop-append (x ∷ xs) ys = drop-append xs ys

  nil_before : (xs ys : List (LogEvent E)) → length (xs ++ ys) ≡ length ys → xs ≡ []
  nil_before [] ys h = refl
  nil_before (x ∷ xs) ys h = absurd (omega (arith, h, length-append xs ys))

  push_all-cap : (es : List E) (s : LogStore E) → (Store.push_all es s).cap ≡ s.cap
  unfolding Store.push_all Store.push
  push_all-cap [] s = refl
  push_all-cap (e ∷ es) s = push_all-cap es (Store.push e s)

  push_all-append :
      (xs ys : List E) (s : LogStore E)
      → Store.push_all (xs ++ ys) s ≡ Store.push_all ys (Store.push_all xs s)
  unfolding Store.push_all
  push_all-append [] ys s = refl
  push_all-append (x ∷ xs) ys s = push_all-append xs ys (Store.push x s)

  sent_of_new :
      (es : List E) (cap : ℕ)
      → length es < u64_range
      → (Store.push_all es (new_store cap)).sent ≡ stamped 0 es
  unfolding Store.new_store
  sent_of_new es cap small = (push_all-sent es (new_store cap) (omega (arith, small))).0

  -- A ring with room for all that was sent is all that was sent.
  ring_of_new :
      (es : List E) (cap : ℕ)
      → length es ≤ cap
      → length es < u64_range
      → (Store.push_all es (new_store cap)).ring ≡ stamped 0 es
  unfolding Store.new_store
  ring_of_new es cap room small =
      let s = Store.push_all es (new_store cap) in
      let sent = sent_of_new es cap small in
      let v = (push_all-IsRing cap es).end_of_sent in
      let evicted = nil_before v.1 s.ring (
        omega (
          arith,
          v.0,
          push_all-cap es (new_store cap),
          ap (λ l. length l) v.2,
          ap (λ l. length l) sent,
          length-stamped 0 es,
        )) in
      ap (λ l. l ++ s.ring) (sym evicted) ∙ sym v.2 ∙ sent

  shown_all :
      (xs ys : List (LogEvent E)) (b : LogBuffer E)
      → push_all (xs ++ ys) b ≡ push_all ys (push_all xs b)
  unfolding push_all
  shown_all [] ys b = refl
  shown_all (x ∷ xs) ys b = shown_all xs ys (push x b)

  -- The two copies of `mid` count once.
  shown_once :
      (view_cap : ℕ) (old mid later : List E)
      → length old + length mid + length later ≤ view_cap
      → (push_all
          (stamped 0 (old ++ mid) ++ stamped (length old) (mid ++ later))
          (new view_cap)).events
        ≡ stamped 0 (old ++ (mid ++ later))
  unfolding new
  shown_once view_cap old mid later view =
      let sum : length (old ++ mid) ≡ length old + length mid = length-append old mid in
      let first = stamped 0 (old ++ mid) in
      let count : length first ≡ length old + length mid = length-stamped 0 (old ++ mid) ∙ sum in
      let n = length old + length mid in
      let b : LogBuffer E = record {
        capacity = view_cap;
        last_seq = 0 + length (old ++ mid);
        events = first;
      } in
      let begun : push_all first (new view_cap) ≡ b =
        push_all-newer 0 (old ++ mid) (new view_cap) refl (omega (arith, sum)) in
      let again : push_all (stamped (length old) mid) b ≡ b =
        push_all-older (length old) mid b (omega (arith, sum)) in
      let rest = push_all-newer n later b (omega (arith, sum)) (omega (arith, count)) in
      ap (λ (c : LogBuffer E). c.events)
        (shown_all first (stamped (length old) (mid ++ later)) (new view_cap)
          ∙ ap (push_all (stamped (length old) (mid ++ later))) begun
          ∙ ap (λ l. push_all l b) (stamped-append (length old) mid later)
          ∙ shown_all (stamped (length old) mid) (stamped n later) b
          ∙ ap (push_all (stamped n later)) again
          ∙ rest)
      ∙ ap (λ k. first ++ stamped k later) (omega (arith, sum))
      ∙ sym (stamped-append 0 (old ++ mid) later)
      ∙ ap (stamped 0) (append_assoc old mid later)

  received_all :
      (depth : ℕ) (events : List (LogEvent E))
      → length events ≤ depth
      → received depth events ≡ events
  received_all depth events h =
      let nothing_lost : length events - depth ≡ 0 = omega (arith, h) in
      ap (λ k. drop k events) nothing_lost

  -- A view that subscribes to the store, then reads its backlog, and takes the live events after the
  -- backlog, shows every event exactly once and in order, also those that were sent between the two, of
  -- which it gets two copies. This is for pushes that come one after the other, while neither the ring
  -- nor the view is full, numbers do not wrap, and no more events come after the subscription than the
  -- channel holds for a receiver that reads late.
  pub replay :
      (cap view_cap : ℕ) (old mid later : List E)
      → length old + length mid ≤ cap
      → length old + length mid + length later ≤ view_cap
      → view_cap < u64_range
      → length mid + length later ≤ broadcast_depth cap
      → let subscribed = Store.push_all old (new_store cap) in
        let read = Store.push_all mid subscribed in
        let last = Store.push_all later read in
        (push_all
          (read.ring ++ received (broadcast_depth cap) (drop (length subscribed.sent) last.sent))
          (new view_cap)).events
        ≡ last.sent
  replay cap view_cap old mid later room view small timely =
      let store = new_store {E = E} cap in
      let sum = length-append old mid in
      let sum_all = length-append old (mid ++ later) in
      let sum_rest = length-append mid later in
      let subscribed = Store.push_all old store in
      let read = Store.push_all mid subscribed in
      let backlog : read.ring ≡ stamped 0 (old ++ mid) =
        ap (λ (s : LogStore E). s.ring) (sym (push_all-append old mid store))
        ∙ ring_of_new (old ++ mid) cap (omega (arith, sum)) (omega (arith, sum)) in
      let whole : (Store.push_all later read).sent ≡ stamped 0 (old ++ (mid ++ later)) =
        ap (λ (s : LogStore E). s.sent)
          (sym (push_all-append mid later subscribed)
            ∙ sym (push_all-append old (mid ++ later) store))
        ∙ sent_of_new (old ++ (mid ++ later)) cap (omega (arith, sum_all, sum_rest)) in
      let before : length subscribed.sent ≡ length (stamped 0 old) =
        ap (λ l. length l) (sent_of_new old cap (omega arith)) in
      let live : received (broadcast_depth cap)
            (drop (length subscribed.sent) (Store.push_all later read).sent)
          ≡ stamped (length old) (mid ++ later) =
        ap (received (broadcast_depth cap)) (
          ap (λ k. drop k (Store.push_all later read).sent) before
          ∙ ap (drop (length (stamped 0 old))) (
              whole
              ∙ stamped-append 0 old (mid ++ later)
              ∙ ap (λ k. stamped 0 old ++ stamped k (mid ++ later)) (omega arith))
          ∙ drop-append (stamped 0 old) (stamped (length old) (mid ++ later)))
        ∙ received_all (broadcast_depth cap) (stamped (length old) (mid ++ later))
            (omega (arith, sum_rest, length-stamped (length old) (mid ++ later))) in
      ap
        (λ l.
          (push_all
            (l
              ++ received (broadcast_depth cap)
                  (drop (length subscribed.sent) (Store.push_all later read).sent))
            (new view_cap)).events)
        backlog
      ∙ ap (λ l. (push_all (stamped 0 (old ++ mid) ++ l) (new view_cap)).events) live
      ∙ shown_once view_cap old mid later view
      ∙ sym whole
