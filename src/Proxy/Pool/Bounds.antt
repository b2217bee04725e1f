-- ===== src/Proxy/Pool/Bounds.antt =====
-- Histories of a pool: how many sockets it holds, and how often it hands one out.
use zicade_rs.Prelude.{
  ℕ, ◌+◌, ◌≤◌, Bool, true, Option, none, some, List, [], ◌∷◌, ◌≡◌, arith, if◌then◌else◌, length,
  filter, map,
}
use zicade_rs.Proxy.Pool.{
  is_fresh, Idle, UpstreamPool, pop_usable, start_prewarm, take, refresh, put,
}

-- A call, with what it finds of the sockets and of the clock.
pub data Call (S : Type 0) : Type 0 where
  takes : (S → Bool) → ℕ → Bool → Call S
  refreshes : (S → Bool) → ℕ → Call S
  parks : ℕ → S → Call S

module _ {S : Type 0} where
  -- The pool after a call, and the socket that the call handed out.
  abbrev pub step : UpstreamPool S → Call S → Option S × UpstreamPool S
  step p (takes is_open now has_runtime) = take is_open now has_runtime p
  step p (refreshes is_open now) = (none, (refresh is_open now p).1)
  step p (parks now stream) = (none, put now stream p)

  abbrev pub add_taken : Option S → List S → List S
  add_taken none taken = taken
  add_taken (some s) taken = s ∷ taken

  unfoldable pub run : UpstreamPool S → List (Call S) → List S × UpstreamPool S
  run p [] = ([], p)
  run p (c ∷ cs) =
      let (taken, q) = step p c in let (more, r) = run q cs in (add_taken taken more, r)

  -- The sockets that a history parks.
  abbrev pub parked : List (Call S) → List S
  parked [] = []
  parked (parks now s ∷ cs) = s ∷ parked cs
  parked (takes is_open now has_runtime ∷ cs) = parked cs
  parked (refreshes is_open now ∷ cs) = parked cs

  -- How many of the sockets a test picks.
  abbrev pub tally : (S → Bool) → List S → ℕ
  tally p [] = 0
  tally p (s ∷ ss) = (if p s then 1 else 0) + tally p ss

  abbrev pub streams : List (Idle S) → List S
  streams = map λ e. e.stream

  -- A call keeps the bound and hands out only sockets that the pool held.
  record Keeps (pick : S → Bool) (p : UpstreamPool S) (c : Call S) (r : Option S × UpstreamPool S)
      : Type 0 where
    same_config : r.1.config ≡ p.config
    bounded : length p.idle ≤ p.config.min_idle → length r.1.idle ≤ p.config.min_idle
    conserved :
        tally pick (add_taken r.0 []) + tally pick (streams r.1.idle)
        ≤ tally pick (streams p.idle) + tally pick (parked (c ∷ []))

  pop_usable-Keeps :
      (is_open : S → Bool) (now : ℕ) (pick : S → Bool) (timeout : ℕ) (idle : List (Idle S))
      → let r = pop_usable is_open now timeout idle in
        (length r.1 ≤ length idle)
        × (tally pick (add_taken r.0 []) + tally pick (streams r.1) ≤ tally pick (streams idle))
  unfolding pop_usable
  pop_usable-Keeps is_open now pick timeout [] = omega arith
  pop_usable-Keeps is_open now pick timeout (e ∷ es) =
      ground (arith, pop_usable-Keeps is_open now pick timeout es)

  filter-Keeps :
      (f : Idle S → Bool) (pick : S → Bool) (idle : List (Idle S))
      → (length (filter f idle) ≤ length idle)
        × (tally pick (streams (filter f idle)) ≤ tally pick (streams idle))
  unfolding filter
  filter-Keeps f pick [] = omega arith
  filter-Keeps f pick (e ∷ es) = ground (arith, filter-Keeps f pick es)

  start_prewarm_idle :
      (has_runtime : Bool) (p : UpstreamPool S)
      → ((start_prewarm has_runtime p).idle ≡ p.idle)
        × ((start_prewarm has_runtime p).config ≡ p.config)
  unfolding start_prewarm
  start_prewarm_idle has_runtime p = ground arith

  take-Keeps :
      (pick : S → Bool) (is_open : S → Bool) (now : ℕ) (has_runtime : Bool) (p : UpstreamPool S)
      → Keeps pick p (takes is_open now has_runtime) (take is_open now has_runtime p)
  unfolding take
  take-Keeps pick is_open now has_runtime p = ground (
    arith,
    start_prewarm_idle has_runtime p,
    pop_usable-Keeps is_open now pick p.config.idle_timeout p.idle,
  )

  refresh-Keeps :
      (pick : S → Bool) (is_open : S → Bool) (now : ℕ) (p : UpstreamPool S)
      → Keeps pick p (refreshes is_open now) (none, (refresh is_open now p).1)
  unfolding refresh
  refresh-Keeps pick is_open now p =
      let unexpired = filter (is_fresh now p.config.idle_timeout) p.idle in
      ground (
        arith,
        filter-Keeps (is_fresh now p.config.idle_timeout) pick p.idle,
        filter-Keeps (λ e. is_open e.stream) pick unexpired,
      )

  put-Keeps :
      (pick : S → Bool) (now : ℕ) (s : S) (p : UpstreamPool S)
      → Keeps pick p (parks now s) (none, put now s p)
  unfolding put
  put-Keeps pick now s p = ground arith

  step-Keeps : (pick : S → Bool) (p : UpstreamPool S) (c : Call S) → Keeps pick p c (step p c)
  step-Keeps pick p (takes is_open now has_runtime) = take-Keeps pick is_open now has_runtime p
  step-Keeps pick p (refreshes is_open now) = refresh-Keeps pick is_open now p
  step-Keeps pick p (parks now s) = put-Keeps pick now s p

  tally_taken :
      (pick : S → Bool) (o : Option S) (ss : List S)
      → tally pick (add_taken o ss) ≡ tally pick (add_taken o []) + tally pick ss
  tally_taken pick none ss = omega arith
  tally_taken pick (some s) ss = omega arith

  tally-parked :
      (pick : S → Bool) (c : Call S) (cs : List (Call S))
      → tally pick (parked (c ∷ cs)) ≡ tally pick (parked (c ∷ [])) + tally pick (parked cs)
  tally-parked pick (takes is_open now has_runtime) cs = omega arith
  tally-parked pick (refreshes is_open now) cs = omega arith
  tally-parked pick (parks now s) cs = omega arith

  -- Whatever is called, and whatever the sockets do, a pool that starts within its watermark never
  -- holds more than `min_idle` sockets.
  pub run-le-min_idle :
      (p : UpstreamPool S) (cs : List (Call S))
      → length p.idle ≤ p.config.min_idle
      → length (run p cs).1.idle ≤ p.config.min_idle
  unfolding run
  run-le-min_idle p [] h = h
  run-le-min_idle p (c ∷ cs) h =
      let k = step-Keeps (λ _. true) p c in
      let later = run-le-min_idle (step p c).1 cs in
      ground (arith, k.same_config, k.bounded h, later)

  -- No socket is handed out twice: of the sockets that any test picks, a history hands out and
  -- still holds at most as many as the pool held before and the history parked.
  pub run_conserved :
      (pick : S → Bool) (p : UpstreamPool S) (cs : List (Call S))
      → tally pick (run p cs).0 + tally pick (streams (run p cs).1.idle)
        ≤ tally pick (streams p.idle) + tally pick (parked cs)
  unfolding run
  run_conserved pick p [] = omega arith
  run_conserved pick p (c ∷ cs) =
      let k = step-Keeps pick p c in
      let q = (step p c).1 in
      omega (
        arith,
        k.conserved,
        run_conserved pick q cs,
        tally_taken pick (step p c).0 (run q cs).0,
        tally-parked pick c cs,
      )
