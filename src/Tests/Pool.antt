-- ===== src/Tests/Pool.antt =====
-- A pool of numbered sockets.
use zicade_rs.Prelude.{
  refl, zero, suc, suc, arith, ℕ, ◌+◌, ◌≡◌, ◌≤◌, ◌==◌, Bool, true, false, ◌∷◌, [], List, filter,
  length, ok,
}
use zicade_rs.Text.{text}
use zicade_rs.Proxy.Pool.{
  full, oldest, next_expiry, UpstreamPool, PoolConfig, seconds, take, refresh, usable,
}
use zicade_rs.Proxy.Pool.Take.{TakesNewest, take-TakesNewest}
use zicade_rs.Proxy.Pool.Refreshed.{Answers, refresh-Answers}
use zicade_rs.Proxy.Pool.Bounds.{
  Call, takes, refreshes, parks, run, tally, parked, streams, run-le-min_idle, run_conserved,
}
use zicade_rs.Proxy.Pool.Registry.{new_pools, PoolHandle, UpstreamPools}
use zicade_rs.Proxy.Pool.Prewarm.{default_backoff, round}
use zicade_rs.Proxy.Pool.Prewarm.Pacing.{Progresses, round-Progresses, default_backoff-IsPaced}

abbrev two_deep : PoolConfig
two_deep = record { min_idle = 2; idle_timeout = seconds 30 }

-- Sockets with even numbers are open.
abbrev is_even : ℕ → Bool
is_even zero = true
is_even (suc zero) = false
is_even (suc (suc n)) = is_even n

abbrev two_sockets : UpstreamPool ℕ
two_sockets = record {
  addr = text "gw:8080";
  config = two_deep;
  idle = record { stream = 3; since = seconds 20 } ∷ record { stream = 2; since = seconds 10 } ∷ [];
  prewarming = false;
  woken = false;
}

take-TakesNewest_example :
    let r = take is_even (seconds 25) true two_sockets in
    (TakesNewest is_even (seconds 25) (seconds 30) two_sockets.idle r.0 r.1.idle)
    × (r.1.config ≡ two_deep)
    × (r.1.addr ≡ text "gw:8080")
    × (r.1.woken ≡ true)
take-TakesNewest_example = take-TakesNewest is_even (seconds 25) true two_sockets

-- Both sockets are open and unexpired, so the pool is full.
abbrev full_pool : UpstreamPool ℕ
full_pool = record two_sockets {
  idle = record { stream = 2; since = seconds 5 } ∷ record { stream = 4; since = seconds 20 } ∷ [];
}

refresh-Answers_example :
    let r = refresh is_even (seconds 25) full_pool in
    (r.1.idle ≡ filter (usable is_even (seconds 25) (seconds 30)) full_pool.idle)
    × (r.1.config ≡ two_deep)
    × Answers is_even (seconds 25) full_pool r.0 r.1.idle
refresh-Answers_example = refresh-Answers is_even (seconds 25) full_pool

full_pool_waits : (refresh is_even (seconds 25) full_pool).0 ≡ full (seconds 10)
unfolding refresh next_expiry oldest filter
full_pool_waits = refl

abbrev history : List (Call ℕ)
history =
    takes is_even (seconds 25) true
    ∷ parks (seconds 26) 4
    ∷ parks (seconds 27) 6
    ∷ refreshes is_even (seconds 28)
    ∷ []

run-le-min_idle_example : length (run two_sockets history).1.idle ≤ 2
run-le-min_idle_example = run-le-min_idle two_sockets history (omega arith)

run_conserved_example :
    tally (λ s. s == 2) (run two_sockets history).0
      + tally (λ s. s == 2) (streams (run two_sockets history).1.idle)
    ≤ tally (λ s. s == 2) (streams two_sockets.idle) + tally (λ s. s == 2) (parked history)
run_conserved_example = run_conserved (λ s. s == 2) two_sockets history

abbrev no_pools : UpstreamPools
no_pools = new_pools two_deep

abbrev first_pool : PoolHandle
first_pool = record { serial = 0; addr = text "a:1"; config = two_deep }

round-Progresses_example :
    Progresses is_even
      (seconds 25)
      two_sockets
      (round is_even (seconds 25) (seconds 26) (ok 8) default_backoff two_sockets)
round-Progresses_example =
    round-Progresses is_even (seconds 25) (seconds 26) (ok 8) default_backoff two_sockets
      (omega arith) default_backoff-IsPaced
