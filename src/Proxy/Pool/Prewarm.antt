-- ===== src/Proxy/Pool/Prewarm.antt =====
-- crates/zicade-proxy/src/upstream/pool/prewarm.rs: the task that keeps a pool topped up, one round
-- of its loop at a time.
pub mod Pacing
use zicade_rs.Prelude.{
  false, ◌∷◌, [], err, [], ok, List, zero, suc, Bool, if◌then◌else◌, Result, suc, ℕ, ◌*◌, min,
}
use zicade_rs.Proxy.Pool.{
  short, put, full, Refresh, UpstreamPool, Str, refresh, seconds, milliseconds,
}

pub record Backoff : Type 0 where
  pub next : ℕ

abbrev pub first_delay : ℕ
first_delay = milliseconds 500

abbrev pub max_delay : ℕ
max_delay = seconds 30

abbrev pub recheck : ℕ
recheck = seconds 5

unfoldable pub default_backoff : Backoff
default_backoff = record { next = first_delay }

unfoldable pub next_delay : Backoff → ℕ × Backoff
next_delay b = (b.next, record b { next = min (b.next * 2) max_delay })

unfoldable pub reset : Backoff → Backoff
reset b = record b { next = first_delay }

-- How a round of the loop waits: asleep for the time given, or until a wake-up for at most that time,
-- which is no time where a permit is stored.
pub data Wait : Type 0 where
  for_wake : ℕ → Wait
  backing_off : ℕ → Wait

abbrev pub wait_time : Wait → ℕ
wait_time (for_wake t) = t
wait_time (backing_off t) = t

module _ {S : Type 0} where
  -- The dial ends `later`, with a socket or with an error, a timeout among them.
  abbrev pub after_dial :
      ℕ → Result Str S → Backoff → UpstreamPool S → List Wait × (Backoff × UpstreamPool S)
  after_dial later (ok stream) b p = ([], (b, put later stream p))
  after_dial later (err why) b p =
      let (delay, b') = next_delay b in (backing_off delay ∷ [], (b', p))

  abbrev pub after_refresh :
      ℕ → Result Str S → Backoff → Refresh × UpstreamPool S → List Wait × (Backoff × UpstreamPool S)
  after_refresh later dialed b (full expiry, p) = (
    for_wake (if p.woken then 0 else min expiry recheck) ∷ [],
    (reset b, record p { woken = false }),
  )
  after_refresh later dialed b (short zero, p) = after_dial later dialed b p
  after_refresh later dialed b (short (suc closed), p) =
      let (delay, b') = next_delay b in
      let (waits, after) = after_dial later dialed b' p in (backing_off delay ∷ waits, after)

  -- One round of the loop in `run`, while the pool is alive.
  unfoldable pub round :
      (S → Bool)
      → ℕ
      → ℕ
      → Result Str S
      → Backoff
      → UpstreamPool S
      → List Wait × (Backoff × UpstreamPool S)
  unfolding refresh next_delay reset
  round is_open now later dialed b p = after_refresh later dialed b (refresh is_open now p)

-- The delay after `n` failures.
unfoldable pub delay_after : ℕ → Backoff → ℕ
unfolding next_delay
delay_after zero b = (next_delay b).0
delay_after (suc n) b = delay_after n (next_delay b).1
