-- ===== src/Observe.antt =====
-- crates/zicade-observe/src/store.rs: the bounded ring of log events. `sent` is what was broadcast, in
-- order; the channel is another crate's. The lock is never poisoned. A push is three operations, each of
-- them atomic, and pushes of other threads may come between them: `Step` is one of them.
pub mod Interleaved
pub mod Layer
pub mod Ring
use zicade_rs.Prelude.{
  drop, ◌-◌, ◌≡◌, ℕ, ◌+◌, ◌%◌, [], ◌∷◌, ◌++◌, List, max, ◌==◌, if◌then◌else◌, length,
}

-- An event of the logger `E`, stamped.
pub record LogEvent (E : Type 0) : Type 0 where
  pub seq : ℕ
  pub event : E

pub record LogStore (E : Type 0) : Type 0 where
  pub ring : List (LogEvent E)
  pub cap : ℕ
  pub seq : ℕ
  pub sent : List (LogEvent E)

abbrev pub default_broadcast_depth : ℕ
default_broadcast_depth = 256

-- How many events the channel of a store of capacity `cap` holds for a receiver, at least.
abbrev pub broadcast_depth : ℕ → ℕ
broadcast_depth cap = max default_broadcast_depth (max cap 1)

-- What a receiver gets of the events since it subscribed, if it reads them only now: the channel drops
-- the oldest ones of more than its depth.
abbrev pub received : {E : Type 0} → ℕ → List (LogEvent E) → List (LogEvent E)
received depth events = drop (length events - depth) events

abbrev pub u64_range : ℕ
u64_range = 18446744073709551616

module _ {E : Type 0} where
  unfoldable pub new_store : ℕ → LogStore E
  new_store cap = record { ring = []; cap = max cap 1; seq = 0; sent = [] }

  abbrev pub stamp : E → LogStore E → LogEvent E
  stamp e s = record { seq = (s.seq + 1) % u64_range; event = e }

  abbrev pub pop_oldest : List (LogEvent E) → List (LogEvent E)
  pop_oldest [] = []
  pop_oldest (x ∷ xs) = xs

  -- The counter's `fetch_add`, the block that holds the ring's lock, and the `send`.
  abbrev pub count_up : LogStore E → LogStore E
  count_up s = record s { seq = (s.seq + 1) % u64_range }

  abbrev pub buffer : LogEvent E → LogStore E → LogStore E
  buffer event s = record s {
    ring = (if length s.ring == s.cap then pop_oldest s.ring else s.ring) ++ (event ∷ []);
  }

  abbrev pub send : LogEvent E → LogStore E → LogStore E
  send event s = record s { sent = s.sent ++ (event ∷ []) }

  -- A push with none of another thread in between.
  unfoldable pub push : E → LogStore E → LogStore E
  push e s = send (stamp e s) (buffer (stamp e s) (count_up s))

  abbrev pub recent : LogStore E → List (LogEvent E)
  recent s = s.ring

  unfoldable pub push_all : List E → LogStore E → LogStore E
  push_all [] s = s
  push_all (e ∷ es) s = push_all es (push e s)

-- A store with the pushes that are under way: `stamped` those that have their number, `kept` those that
-- are in the ring but not sent. `buffered` is what was ever put in the ring; the code keeps no such list.
pub record Pushes (E : Type 0) : Type 0 where
  pub store : LogStore E
  pub stamped : List (LogEvent E)
  pub kept : List (LogEvent E)
  pub buffered : List (LogEvent E)

module _ {E : Type 0} where
  abbrev pub no_pushes : ℕ → Pushes E
  no_pushes cap = record { store = new_store cap; stamped = []; kept = []; buffered = [] }

  pub data Step : Pushes E → Pushes E → Type 0 where
    counts :
        (p : Pushes E) (e : E)
        → Step p (record p { store = count_up p.store; stamped = stamp e p.store ∷ p.stamped })
    buffers :
        (p : Pushes E) (before after : List (LogEvent E)) (event : LogEvent E)
        → p.stamped ≡ before ++ (event ∷ after)
        → Step p (record p {
          store = buffer event p.store;
          stamped = before ++ after;
          kept = event ∷ p.kept;
          buffered = p.buffered ++ (event ∷ []);
        })
    sends :
        (p : Pushes E) (before after : List (LogEvent E)) (event : LogEvent E)
        → p.kept ≡ before ++ (event ∷ after)
        → Step p (record p { store = send event p.store; kept = before ++ after })

  pub data Reach (p : Pushes E) : Pushes E → Type 0 where
    here : Reach p p
    next : {q r : Pushes E} → Reach p q → Step q r → Reach p r
