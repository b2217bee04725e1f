-- ===== src/Proxy/Pool/Take.antt =====
-- Which socket a `CONNECT` is handed.
use zicade_rs.Prelude.{
  ℕ, Bool, true, false, Option, none, some, List, [], ◌∷◌, ◌++◌, ◌≡◌, ◌⊎◌, inl, inr, refl, ap,
  arith, All, Bool-cases,
}
use zicade_rs.Proxy.Pool.{Idle, UpstreamPool, usable, pop_usable, start_prewarm, take}

start_prewarm_cases :
    {S : Type 0} (has_runtime : Bool) (p : UpstreamPool S)
    → (start_prewarm has_runtime p ≡ p)
      ⊎ (start_prewarm has_runtime p ≡ record p { prewarming = true })
unfolding start_prewarm
start_prewarm_cases has_runtime p = ground arith

module _ {S : Type 0} (is_open : S → Bool) (now : ℕ) where
  abbrev pub IsUnusable : ℕ → Idle S → Type 0
  IsUnusable idle_timeout entry = usable is_open now idle_timeout entry ≡ false

  -- The newest usable socket is taken, the unusable ones before it are closed, and the older ones
  -- stay; nothing is taken only if no socket is usable.
  abbrev pub TakesNewest : ℕ → List (Idle S) → Option S → List (Idle S) → Type 0
  TakesNewest idle_timeout before none after = All (IsUnusable idle_timeout) before × (after ≡ [])
  TakesNewest idle_timeout before (some s) after =
      (closed : List (Idle S)) × (entry : Idle S) × (before ≡ closed ++ (entry ∷ after))
      × (All (IsUnusable idle_timeout) closed)
      × (usable is_open now idle_timeout entry ≡ true)
      × (entry.stream ≡ s)

  TakesNewest-skip :
      (idle_timeout : ℕ) (entry : Idle S) (before after : List (Idle S)) (taken : Option S)
      → IsUnusable idle_timeout entry
      → TakesNewest idle_timeout before taken after
      → TakesNewest idle_timeout (entry ∷ before) taken after
  TakesNewest-skip idle_timeout entry before after none u t = ((u, t.0), t.1)
  TakesNewest-skip idle_timeout entry before after (some s) u (closed, e, splits, all, good, is) =
      (entry ∷ closed, e, ap (◌∷◌ entry) splits, (u, all), good, is)

  pop_usable-TakesNewest :
      (idle_timeout : ℕ) (idle : List (Idle S))
      → let r = pop_usable is_open now idle_timeout idle in TakesNewest idle_timeout idle r.0 r.1
  unfolding pop_usable
  pop_usable-TakesNewest idle_timeout [] = (tt, refl)
  pop_usable-TakesNewest idle_timeout (entry ∷ rest) =
      elim (Bool-cases (usable is_open now idle_timeout entry)) [
        | inl good ↦ rw good ([], entry, refl, tt, good, refl)
        | inr bad ↦ rw bad (
            TakesNewest-skip idle_timeout entry rest _ _ bad
              (pop_usable-TakesNewest idle_timeout rest))
      ]

  -- `take` hands out the newest socket that is neither expired nor closed nor talking, closes the
  -- unusable ones that it met, keeps the older ones and the configuration, and wakes the task.
  pub take-TakesNewest :
      (has_runtime : Bool) (p : UpstreamPool S)
      → let r = take is_open now has_runtime p in
        (TakesNewest p.config.idle_timeout p.idle r.0 r.1.idle)
        × (r.1.config ≡ p.config)
        × (r.1.addr ≡ p.addr)
        × (r.1.woken ≡ true)
  unfolding take
  take-TakesNewest has_runtime p = elim (start_prewarm_cases has_runtime p) [
    | inl e ↦ rw (e, take) (pop_usable-TakesNewest p.config.idle_timeout p.idle, refl, refl, refl)
    | inr e ↦ rw (e, take) (pop_usable-TakesNewest p.config.idle_timeout p.idle, refl, refl, refl)
  ]
