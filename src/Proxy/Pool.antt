-- ===== src/Proxy/Pool.antt =====
-- crates/zicade-proxy/src/upstream/pool.rs: parked sockets to one upstream. The clock's reading is
-- an argument of each operation, and so is `is_open`, what `wire::is_idle_and_open` finds of each
-- socket at that moment. Times are in nanoseconds.
pub mod Take
pub mod Refreshed
pub mod Bounds
pub mod Registry
pub mod Prewarm
use zicade_rs.Prelude.{
  ℕ, ◌+◌, ◌-◌, ◌*◌, Bool, true, false, not, ◌&&◌, ◌||◌, Option, none, some, List, [], ◌∷◌, ltb, min,
  if◌then◌else◌, length, filter, unwrap_or, map_option,
}
use zicade_rs.Text.{Str}

abbrev pub seconds : ℕ → ℕ
seconds n = n * 1000000000

abbrev pub milliseconds : ℕ → ℕ
milliseconds n = n * 1000000

pub record PoolConfig : Type 0 where
  pub min_idle : ℕ
  pub idle_timeout : ℕ

pub record Idle (S : Type 0) : Type 0 where
  pub stream : S
  pub since : ℕ

-- The newest socket stands first: the head of `idle` is the back of the deque. `prewarming` says
-- that the prewarm task was started, `woken` that a permit to look again is stored for it.
pub record UpstreamPool (S : Type 0) : Type 0 where
  pub addr : Str
  pub config : PoolConfig
  pub idle : List (Idle S)
  pub prewarming : Bool
  pub woken : Bool

pub data Refresh : Type 0 where
  full : ℕ → Refresh
  short : ℕ → Refresh

unfoldable pub new : {S : Type 0} → Str → PoolConfig → UpstreamPool S
new addr config = record {
  addr = addr;
  config = config;
  idle = [];
  prewarming = false;
  woken = false;
}

abbrev pub idle_count : {S : Type 0} → UpstreamPool S → ℕ
idle_count p = length p.idle

-- The earliest `since`.
unfoldable pub oldest : {S : Type 0} → List (Idle S) → Option ℕ
oldest [] = none
oldest (entry ∷ rest) =
    some (elim (oldest rest) [ none ↦ entry.since | some t ↦ min entry.since t ])

-- The task is started once, and only on a thread that has a runtime.
unfoldable pub start_prewarm : {S : Type 0} → Bool → UpstreamPool S → UpstreamPool S
start_prewarm has_runtime p =
    if p.prewarming || not has_runtime then p else record p { prewarming = true }

-- `timeout.saturating_sub(since.elapsed())` of the oldest entry, the timeout if there is none.
abbrev pub expiry_in : ℕ → ℕ → Option ℕ → ℕ
expiry_in now idle_timeout none = idle_timeout
expiry_in now idle_timeout (some since) = idle_timeout - (now - since)

module _ {S : Type 0} (now : ℕ) where
  -- `entry.since.elapsed()`.
  abbrev pub elapsed : Idle S → ℕ
  elapsed entry = now - entry.since

  abbrev pub is_fresh : ℕ → Idle S → Bool
  is_fresh idle_timeout entry = ltb (elapsed entry) idle_timeout

  unfoldable pub next_expiry : ℕ → List (Idle S) → ℕ
  unfolding oldest
  next_expiry idle_timeout idle = expiry_in now idle_timeout (oldest idle)

  -- A freshly dialed socket is parked unless the pool is at the watermark.
  unfoldable pub put : S → UpstreamPool S → UpstreamPool S
  put stream p =
      if ltb (length p.idle) p.config.min_idle
      then record p { idle = record { stream = stream; since = now } ∷ p.idle }
      else p

module _ {S : Type 0} (is_open : S → Bool) (now : ℕ) where
  abbrev pub usable : ℕ → Idle S → Bool
  usable idle_timeout entry = is_fresh now idle_timeout entry && is_open entry.stream

  -- The loop of `take_idle`: what it returns, and what is left.
  unfoldable pub pop_usable : ℕ → List (Idle S) → Option S × List (Idle S)
  pop_usable idle_timeout [] = (none, [])
  pop_usable idle_timeout (entry ∷ rest) =
      let further = pop_usable idle_timeout rest in
      if usable idle_timeout entry then (some entry.stream, rest) else further

  unfoldable pub take_idle : UpstreamPool S → Option S × UpstreamPool S
  take_idle p =
      let (taken, rest) = pop_usable p.config.idle_timeout p.idle in
      (taken, record p { idle = rest })

  unfoldable pub refresh : UpstreamPool S → Refresh × UpstreamPool S
  refresh p =
      let before = length p.idle in
      let unexpired = filter (is_fresh now p.config.idle_timeout) p.idle in
      let expired = before - length unexpired in
      let kept = filter (λ entry. is_open entry.stream) unexpired in
      let closed_by_peer = before - expired - length kept in
      let q : UpstreamPool S = record p { idle = kept } in
      if ltb (length kept) p.config.min_idle
      then (short closed_by_peer, q)
      else (full (next_expiry now p.config.idle_timeout kept), q)

  -- What a `CONNECT` calls: start the task, take, and wake the task.
  unfoldable pub take : Bool → UpstreamPool S → Option S × UpstreamPool S
  unfolding take_idle start_prewarm
  take has_runtime p =
      let (taken, q) = take_idle (start_prewarm has_runtime p) in (taken, record q { woken = true })
