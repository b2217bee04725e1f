-- ===== src/Proxy/Pool/Refreshed.antt =====
-- What the prewarm task finds when it looks at the pool.
use zicade_rs.Prelude.{
  ℕ, ◌+◌, ◌-◌, ◌≤◌, ◌<◌, Bool, true, not, ◌&&◌, Option, none, some, List, [], ◌∷◌, ◌≡◌, refl, arith,
  All, length, filter, Bool-cases, inl, inr, Option-cases,
}
use zicade_rs.Proxy.Pool.{
  expiry_in, Idle, UpstreamPool, Refresh, full, short, elapsed, is_fresh, usable, oldest,
  next_expiry, refresh,
}

filter-filter {ℓ} :
    {A : Type ℓ} (p q : A → Bool) (xs : List A)
    → filter q (filter p xs) ≡ filter (λ x. p x && q x) xs
unfolding filter
filter-filter p q [] = refl
filter-filter p q (x ∷ xs) = ground (arith, filter-filter p q xs)

All-filter {ℓ} : {A : Type ℓ} (p : A → Bool) (xs : List A) → All (λ x. p x ≡ true) (filter p xs)
unfolding filter
All-filter p [] = tt
All-filter p (x ∷ xs) = elim (Bool-cases (p x)) [
  | inl h ↦ rw h (h, All-filter p xs)
  | inr h ↦ rw h (All-filter p xs)
]

-- The entries split into those that pass and those that do not.
length-filter-not {ℓ} :
    {A : Type ℓ} (p : A → Bool) (xs : List A)
    → length (filter p xs) + length (filter (λ x. not (p x)) xs) ≡ length xs
unfolding filter
length-filter-not p [] = omega arith
length-filter-not p (x ∷ xs) = ground (arith, length-filter-not p xs)

module _ {S : Type 0} where
  abbrev pub NotAfter : ℕ → List (Idle S) → Type 0
  NotAfter t = All (λ e. t ≤ e.since)

  NotAfter-le : (t u : ℕ) (idle : List (Idle S)) → u ≤ t → NotAfter t idle → NotAfter u idle
  NotAfter-le t u [] h n = tt
  NotAfter-le t u (e ∷ es) h n = (omega arith, NotAfter-le t u es h n.1)

  NotAfter-none : (t : ℕ) (idle : List (Idle S)) → oldest idle ≡ none → NotAfter t idle
  unfolding oldest
  NotAfter-none t [] e = tt
  NotAfter-none t (x ∷ xs) e = cc

  -- The oldest entry is no younger than any.
  oldest-NotAfter : (idle : List (Idle S)) {t : ℕ} → oldest idle ≡ some t → NotAfter t idle
  unfolding oldest
  oldest-NotAfter [] e = tt
  oldest-NotAfter (x ∷ xs) {t} e = elim (Option-cases (oldest xs)) [
    | inl h ↦ (ground arith, NotAfter-none t xs h)
    | inr (u, h) ↦ (ground arith, NotAfter-le u t xs (ground arith) (oldest-NotAfter xs h))
  ]

  module _ (now timeout : ℕ) where
    abbrev AllFresh : List (Idle S) → Type 0
    AllFresh = All (λ e. is_fresh now timeout e ≡ true)

    oldest_fresh :
        (idle : List (Idle S)) {t : ℕ} → oldest idle ≡ some t → AllFresh idle → now - t < timeout
    unfolding oldest
    oldest_fresh [] e f = cc
    oldest_fresh (x ∷ xs) {t} e f = elim (Option-cases (oldest xs)) [
      | inl h ↦ ground arith
      | inr (u, h) ↦ let later = oldest_fresh xs h f.1 in ground arith
    ]

    -- No entry expires before a wait of `wait`.
    abbrev pub OutlastsWait : ℕ → List (Idle S) → Type 0
    OutlastsWait wait = All (λ e. elapsed now e + wait ≤ timeout)

    NotAfter-OutlastsWait :
        (t : ℕ) (idle : List (Idle S))
        → now - t < timeout
        → NotAfter t idle
        → OutlastsWait (timeout - (now - t)) idle
    NotAfter-OutlastsWait t [] h n = tt
    NotAfter-OutlastsWait t (e ∷ es) h n = (omega arith, NotAfter-OutlastsWait t es h n.1)

    expiry_in-OutlastsWait :
        (o : Option ℕ) (idle : List (Idle S))
        → oldest idle ≡ o
        → AllFresh idle
        → OutlastsWait (expiry_in now timeout o) idle × (0 < timeout → 0 < expiry_in now timeout o)
    expiry_in-OutlastsWait none [] e f = (tt, λ h. h)
    expiry_in-OutlastsWait none (x ∷ xs) e f = absurd (unfold oldest in cc)
    expiry_in-OutlastsWait (some t) idle e f =
        let fresh = oldest_fresh idle e f in
        (NotAfter-OutlastsWait t idle fresh (oldest-NotAfter idle e), λ _. omega arith)

    next_expiry-OutlastsWait :
        (idle : List (Idle S))
        → AllFresh idle
        → OutlastsWait (next_expiry now timeout idle) idle
          × (0 < timeout → 0 < next_expiry now timeout idle)
    unfolding next_expiry
    next_expiry-OutlastsWait idle = expiry_in-OutlastsWait (oldest idle) idle refl

module _ {S : Type 0} (is_open : S → Bool) (now : ℕ) where
  -- What a look at the pool answers, given the pool that it leaves.
  abbrev pub Answers : UpstreamPool S → Refresh → List (Idle S) → Type 0
  Answers p (short closed_by_peer) kept =
      (length kept < p.config.min_idle)
      × (closed_by_peer
          ≡ length
              (filter (λ e. is_fresh now p.config.idle_timeout e && not (is_open e.stream)) p.idle))
  Answers p (full wait) kept =
      (p.config.min_idle ≤ length kept)
      × OutlastsWait now p.config.idle_timeout wait kept
      × (0 < p.config.idle_timeout → 0 < wait)

  AllFresh-filter :
      (timeout : ℕ) (f : Idle S → Bool) (idle : List (Idle S))
      → All (λ e. is_fresh now timeout e ≡ true) idle
      → All (λ e. is_fresh now timeout e ≡ true) (filter f idle)
  unfolding filter
  AllFresh-filter timeout f [] h = tt
  AllFresh-filter timeout f (e ∷ es) h = ground (arith, AllFresh-filter timeout f es h.1)

  -- `refresh` keeps exactly the usable sockets, in their order. It reports a short pool with the
  -- number of unexpired sockets that the upstream closed or wrote to, and otherwise a full one with
  -- a wait in which no kept socket expires, which is not zero unless the idle timeout is.
  pub refresh-Answers :
      (p : UpstreamPool S)
      → let r = refresh is_open now p in
        (r.1.idle ≡ filter (usable is_open now p.config.idle_timeout) p.idle)
        × (r.1.config ≡ p.config)
        × Answers p r.0 r.1.idle
  unfolding refresh
  refresh-Answers p =
      let timeout = p.config.idle_timeout in
      let fresh = is_fresh {S = S} now timeout in
      let unexpired = filter fresh p.idle in
      let kept = filter (λ (e : Idle S). is_open e.stream) unexpired in
      let all_fresh =
        AllFresh-filter timeout (λ e. is_open e.stream) unexpired (All-filter fresh p.idle) in
      ground (
        arith,
        filter-filter fresh (λ e. is_open e.stream) p.idle,
        filter-filter fresh (λ e. not (is_open e.stream)) p.idle,
        length-filter-not fresh p.idle,
        length-filter-not (λ e. is_open e.stream) unexpired,
        next_expiry-OutlastsWait now timeout kept all_fresh,
      )
