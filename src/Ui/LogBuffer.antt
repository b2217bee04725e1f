-- ===== src/Ui/LogBuffer.antt =====
-- crates/zicade-ui/src/log_buffer.rs: the events that the log view shows.
pub mod Replay
use zicade_rs.Prelude.{
  ℕ, Bool, not, ◌&&◌, ◌==◌, leb, max, List, [], ◌∷◌, ◌++◌, length, if◌then◌else◌,
}
use zicade_rs.Observe.{LogEvent}

pub record LogBuffer (E : Type 0) : Type 0 where
  pub capacity : ℕ
  pub last_seq : ℕ
  pub events : List (LogEvent E)

module _ {E : Type 0} where
  unfoldable pub new : ℕ → LogBuffer E
  new capacity = record { capacity = capacity; last_seq = 0; events = [] }

  abbrev pub pop_front : List (LogEvent E) → List (LogEvent E)
  pop_front [] = []
  pop_front (x ∷ xs) = xs

  abbrev pub append_event : LogEvent E → LogBuffer E → LogBuffer E
  append_event event b = record b {
    last_seq = max b.last_seq event.seq;
    events =
        (if length b.events == b.capacity then pop_front b.events else b.events) ++ (event ∷ []);
  }

  unfoldable pub push : LogEvent E → LogBuffer E → LogBuffer E
  push event b =
      if not (event.seq == 0) && leb event.seq b.last_seq then b else append_event event b

  -- The events of a stream, one after the other.
  unfoldable pub push_all : List (LogEvent E) → LogBuffer E → LogBuffer E
  push_all [] b = b
  push_all (event ∷ events) b = push_all events (push event b)
