-- ===== src/Proxy/Pool/Prewarm/Pacing.antt =====
-- How often the prewarm task dials.
use native.Mathlib.Nat.{pow-suc, le-mul_of_pos_right}
use zicade_rs.Prelude.{
  refl, ltb→lt, ◌∙◌, ℕ, true, false, zero, suc, ◌*◌, ◌^◌, ◌≤◌, ◌<◌, Bool, List, [], ◌≡◌, ◌≢◌, ◌⊎◌,
  inl, inr, arith, min, All, length, filter, Result, ok, err, Bool-cases, ltb,
}
use zicade_rs.Text.{Str}
use zicade_rs.Proxy.Pool.{UpstreamPool, Refresh, full, short, refresh, put, usable}
use zicade_rs.Proxy.Pool.Refreshed.{refresh-Answers, Answers}
use zicade_rs.Proxy.Pool.Prewarm.{
  Backoff, Wait, wait_time, first_delay, max_delay, default_backoff, next_delay, reset, delay_after,
  after_refresh, round,
}

pow-pos : (n : ℕ) → 1 ≤ 2 ^ n
pow-pos zero = omega arith
pow-pos (suc n) = omega (arith, pow-suc 2 n, pow-pos n)

-- Doubling under a cap, then multiplying, is multiplying by twice as much under the cap.
capped_double :
    (d : ℕ) (n : ℕ) → min (min (d * 2) max_delay * 2 ^ n) max_delay ≡ min (d * 2 ^ suc n) max_delay
capped_double d n = elim (Bool-cases (ltb (d * 2) max_delay)) [
  | inl below ↦
      let e : min (d * 2) max_delay ≡ d * 2 = omega (arith, ltb→lt (d * 2) max_delay below) in
      rw (e, pow-suc 2 n) (omega arith)
  | inr above ↦
      let e : min (d * 2) max_delay ≡ max_delay = ground arith in
      let grows = le-mul_of_pos_right (d * 2) (pow-pos n) in
      rw (e, pow-suc 2 n) (omega (arith, grows, le-mul_of_pos_right max_delay (pow-pos n), e))
]

delay_after_from :
    (n d : ℕ) → d ≤ max_delay → delay_after n (record { next = d }) ≡ min (d * 2 ^ n) max_delay
unfolding delay_after
delay_after_from zero d h = omega arith
delay_after_from (suc n) d h =
    delay_after_from n (min (d * 2) max_delay) (omega arith) ∙ capped_double d n

-- The delays double from half a second with every failure, up to half a minute.
pub delay_after_lem : (n : ℕ) → delay_after n default_backoff ≡ min (first_delay * 2 ^ n) max_delay
unfolding default_backoff
delay_after_lem n = delay_after_from n first_delay (omega arith)

-- The next delay is within its limits.
pub record IsPaced (b : Backoff) : Type 0 where
  pub least : first_delay ≤ b.next
  pub most : b.next ≤ max_delay

pub default_backoff-IsPaced : IsPaced default_backoff
unfolding default_backoff
default_backoff-IsPaced = omega arith

next_delay-IsPaced : (b : Backoff) → IsPaced b → IsPaced (next_delay b).1
unfolding next_delay
next_delay-IsPaced b v = omega arith

module _ {S : Type 0} where
  -- No wait is longer than half a minute, and the round gets somewhere: it waits, each time for a
  -- positive while unless it is woken, or it has parked a new socket beside the usable ones, none of
  -- which the upstream had closed, or it has used up the permit that a take had stored.
  abbrev pub Progresses :
      (S → Bool) → ℕ → UpstreamPool S → List Wait × (Backoff × UpstreamPool S) → Type 0
  Progresses is_open now p (waits, (b, q)) =
      IsPaced b
      × (All (λ w. wait_time w ≤ max_delay) waits)
      × (((waits ≢ []) × All (λ w. 0 < wait_time w) waits)
          ⊎ ((length q.idle
                ≡ suc (length (filter (usable is_open now p.config.idle_timeout) p.idle)))
              ⊎ ((p.woken ≡ true) × (q.woken ≡ false))))

  refresh-woken :
      (is_open : S → Bool) (now : ℕ) (p : UpstreamPool S)
      → (refresh is_open now p).1.woken ≡ p.woken
  unfolding refresh
  refresh-woken is_open now p = ground arith

  put_below :
      (now : ℕ) (s : S) (p : UpstreamPool S)
      → length p.idle < p.config.min_idle
      → length (put now s p).idle ≡ suc (length p.idle)
  unfolding put
  put_below now s p h = ground arith

  after_refresh-Progresses :
      (is_open : S → Bool) (now later : ℕ) (dialed : Result Str S) (b : Backoff)
      (p : UpstreamPool S) (r : Refresh) (q : UpstreamPool S)
      → 0 < p.config.idle_timeout
      → IsPaced b
      → q.idle ≡ filter (usable is_open now p.config.idle_timeout) p.idle
      → q.config ≡ p.config
      → q.woken ≡ p.woken
      → Answers is_open now p r q.idle
      → Progresses is_open now p (after_refresh later dialed b (r, q))
  unfolding reset next_delay
  after_refresh-Progresses is_open now later dialed b p (full t) q h v i c k a =
      elim (Bool-cases p.woken) [
        | inl permit ↦ rw (k, permit) (omega arith, (omega arith, tt), inr (inr (refl, refl)))
        | inr asleep ↦ rw (k, asleep) (ground arith)
      ]
  after_refresh-Progresses is_open now later (ok s) b p (short zero) q h v i c k a =
      ground (arith, put_below later s q)
  after_refresh-Progresses is_open now later (err e) b p (short zero) q h v i c k a = ground arith
  after_refresh-Progresses is_open now later (ok s) b p (short (suc n)) q h v i c k a = ground arith
  after_refresh-Progresses is_open now later (err e) b p (short (suc n)) q h v i c k a =
      ground arith

  -- With an idle timeout that is not zero and a delay within its limits, every round of the prewarm task
  -- waits, each time for a positive while unless a take wakes it, or parks one more socket beside the
  -- usable ones, none of which the upstream had closed, or uses up the wake permit that a take had
  -- stored. No wait is longer than half a minute, and the delay stays within its limits.
  pub round-Progresses :
      (is_open : S → Bool) (now later : ℕ) (dialed : Result Str S) (b : Backoff)
      (p : UpstreamPool S)
      → 0 < p.config.idle_timeout
      → IsPaced b
      → Progresses is_open now p (round is_open now later dialed b p)
  unfolding round
  round-Progresses is_open now later dialed b p h v =
      let (idle, config, answers) = refresh-Answers is_open now p in
      let (r, q) = refresh is_open now p in
      after_refresh-Progresses is_open now later dialed b p r q h v idle config
        (refresh-woken is_open now p) answers
