-- ===== src/Proxy/Tracker.antt =====
-- crates/zicade-proxy/src/tracker.rs and metrics.rs: the book of connections and the live counters.
-- An entry is shared by the book and by its `Tracked` handle from `start` until the handle is
-- dropped, so a handle is an id here and a call on it changes the book's entry. Each call is one
-- step; a call on an id that is not open has no handle to be made on, and changes nothing.
pub mod Book
pub mod Outcome
pub mod Invariant
use zicade_rs.Prelude.{
  ℕ, suc, ◌+◌, ◌-◌, ◌%◌, Bool, true, false, Option, none, some, List, [], ◌∷◌, ◌++◌, map, reverse,
  ltb, ◌==◌, if◌then◌else◌, length,
}
use zicade_rs.Text.{Str}

abbrev pub history_len : ℕ
history_len = 200

abbrev pub u64_modulus : ℕ
u64_modulus = 18446744073709551616

pub data ConnectionKind : Type 0 where
  tunnel : ConnectionKind
  http : Str → Option ℕ → ConnectionKind

-- `relaying` is the source's `Open`.
pub data ConnectionState : Type 0 where
  connecting : ConnectionState
  relaying : ConnectionState
  closed : ConnectionState
  failed : Str → ConnectionState

pub record ConnectionSnapshot : Type 0 where
  pub id : ℕ
  pub kind : ConnectionKind
  pub target : Str
  pub route : Str
  pub client : Option Str
  pub opened_at : ℕ
  pub duration : ℕ
  pub bytes_up : ℕ
  pub bytes_down : ℕ
  pub state : ConnectionState

-- `has_failed` is the source's flag `failed`; the fields behind the lock follow it.
pub record Entry : Type 0 where
  pub id : ℕ
  pub target : Str
  pub client : Option Str
  pub opened_at : ℕ
  pub started : ℕ
  pub up : ℕ
  pub down : ℕ
  pub has_failed : Bool
  pub kind : ConnectionKind
  pub route : Str
  pub state : ConnectionState

pub record ProxyMetrics : Type 0 where
  pub active : ℕ
  pub total_requests : ℕ
  pub failed_requests : ℕ
  pub bytes_in : ℕ
  pub bytes_out : ℕ

-- `open_entries` is in the order of ids, as the tree map; `history` has the newest last.
pub record Tracker : Type 0 where
  pub next_id : ℕ
  pub open_entries : List Entry
  pub history : List ConnectionSnapshot
  pub metrics : ProxyMetrics

abbrev pub no_metrics : ProxyMetrics
no_metrics = record {
  active = 0;
  total_requests = 0;
  failed_requests = 0;
  bytes_in = 0;
  bytes_out = 0;
}

abbrev pub new : Tracker
new = record { next_id = 0; open_entries = []; history = []; metrics = no_metrics }

-- Atomic counters wrap.
abbrev pub add_u64 : ℕ → ℕ → ℕ
add_u64 a b = (a + b) % u64_modulus

abbrev pub incr_request : ProxyMetrics → ProxyMetrics
incr_request m = record m { total_requests = add_u64 m.total_requests 1 }

abbrev pub incr_failed : ProxyMetrics → ProxyMetrics
incr_failed m = record m { failed_requests = add_u64 m.failed_requests 1 }

unfoldable pub add_bytes : ℕ → ℕ → ProxyMetrics → ProxyMetrics
add_bytes inbound outbound m = record m {
  bytes_in = if ltb 0 inbound then add_u64 m.bytes_in inbound else m.bytes_in;
  bytes_out = if ltb 0 outbound then add_u64 m.bytes_out outbound else m.bytes_out;
}

-- The guard of an accepted connection: made when serving starts, dropped when it ends. A `usize`
-- is 64 bits wide, and the guard takes away what it added.
abbrev pub guard_connection : ProxyMetrics → ProxyMetrics
guard_connection m = record m { active = add_u64 m.active 1 }

abbrev pub drop_guard : ProxyMetrics → ProxyMetrics
drop_guard m = record m { active = (m.active + u64_modulus - 1) % u64_modulus }

abbrev pub snapshot_entry : ℕ → Entry → ConnectionSnapshot
snapshot_entry duration e = record {
  id = e.id;
  kind = e.kind;
  target = e.target;
  route = e.route;
  client = e.client;
  opened_at = e.opened_at;
  duration = duration;
  bytes_up = e.up;
  bytes_down = e.down;
  state = e.state;
}

abbrev pub open_state : ConnectionState → ConnectionState
open_state connecting = relaying
open_state s = s

abbrev pub close_state : ConnectionState → ConnectionState
close_state (failed why) = failed why
close_state _ = closed

abbrev pub put_status : ℕ → ConnectionKind → ConnectionKind
put_status status tunnel = tunnel
put_status status (http method old) = http method (some status)

-- The calls on a handle.
pub data HandleCall : Type 0 where
  add_up : ℕ → HandleCall
  add_down : ℕ → HandleCall
  set_route : Str → HandleCall
  set_open : HandleCall
  set_status : ℕ → HandleCall
  fail : Str → HandleCall

-- What a call does to the entry, and to the totals.
unfoldable pub call_entry : HandleCall → Entry → Entry
call_entry (add_up n) e = record e { up = add_u64 e.up n }
call_entry (add_down n) e = record e { down = add_u64 e.down n }
call_entry (set_route route) e = record e { route = route }
call_entry set_open e = record e { state = open_state e.state }
call_entry (set_status status) e = record e {
  kind = put_status status e.kind;
  state = open_state e.state;
}
call_entry (fail why) e =
    if e.has_failed then e else record e { has_failed = true; state = failed why }

unfoldable pub call_metrics : HandleCall → Bool → ProxyMetrics → ProxyMetrics
unfolding add_bytes
call_metrics (add_up n) has_failed m = add_bytes 0 n m
call_metrics (add_down n) has_failed m = add_bytes n 0 m
call_metrics (fail why) has_failed m = if has_failed then m else incr_failed m
call_metrics _ has_failed m = m

unfoldable pub find_entry : ℕ → List Entry → Option Entry
find_entry id [] = none
find_entry id (e ∷ es) = let rest = find_entry id es in if e.id == id then some e else rest

-- The shared entry, changed in place.
unfoldable pub update_entry : ℕ → (Entry → Entry) → List Entry → List Entry
update_entry id change [] = []
update_entry id change (e ∷ es) =
    let rest = e ∷ update_entry id change es in if e.id == id then change e ∷ es else rest

unfoldable pub remove_entry : ℕ → List Entry → List Entry
remove_entry id [] = []
remove_entry id (e ∷ es) = let rest = e ∷ remove_entry id es in if e.id == id then es else rest

-- Insertion into the tree map.
unfoldable pub insert_entry : Entry → List Entry → List Entry
insert_entry e [] = e ∷ []
insert_entry e (x ∷ xs) =
    let rest = x ∷ insert_entry e xs in
    if ltb e.id x.id then e ∷ x ∷ xs else (if e.id == x.id then e ∷ xs else rest)

-- The entry of a new connection.
abbrev pub first_entry : ℕ → ConnectionKind → Str → Str → Option Str → ℕ → ℕ → Entry
first_entry id kind target route client system_now now = record {
  id = id;
  target = target;
  client = client;
  opened_at = system_now;
  started = now;
  up = 0;
  down = 0;
  has_failed = false;
  kind = kind;
  route = route;
  state = connecting;
}

-- `Tracked::start`: the id of the new handle is the counter after it was raised.
unfoldable pub start : ConnectionKind → Str → Str → Option Str → ℕ → ℕ → Tracker → Tracker
start kind target route client system_now now t =
    let id = add_u64 t.next_id 1 in
    record t {
      next_id = id;
      open_entries =
          insert_entry (first_entry id kind target route client system_now now) t.open_entries;
      metrics = incr_request t.metrics;
    }

unfoldable pub call_handle : ℕ → HandleCall → Tracker → Tracker
call_handle id c t = elim (find_entry id t.open_entries) [
  | none ↦ t
  | some e ↦ record t {
    open_entries = update_entry id (call_entry c) t.open_entries;
    metrics = call_metrics c e.has_failed t.metrics;
  }
]

abbrev pub pop_front : {A : Type 0} → List A → List A
pop_front [] = []
pop_front (x ∷ xs) = xs

-- The history takes a finished connection, and forgets the oldest one when it is full.
unfoldable pub push_history : ConnectionSnapshot → List ConnectionSnapshot → List ConnectionSnapshot
push_history s h = (if length h == history_len then pop_front h else h) ++ (s ∷ [])

-- Dropping the handle: `Tracker::close`.
unfoldable pub close : ℕ → ℕ → Tracker → Tracker
close id now t = elim (find_entry id t.open_entries) [
  | none ↦ t
  | some e ↦
      let finished = snapshot_entry (now - e.started) (record e { state = close_state e.state }) in
      record t {
        open_entries = remove_entry id t.open_entries;
        history = push_history finished t.history;
      }
]

-- Open connections first, then finished ones; newest first in each.
unfoldable pub snapshot : ℕ → Tracker → List ConnectionSnapshot
snapshot now t =
    map (λ e. snapshot_entry (now - e.started) e) (reverse t.open_entries) ++ reverse t.history

-- What may happen to the tracker.
pub data Call : Type 0 where
  starts : ConnectionKind → Str → Str → Option Str → ℕ → ℕ → Call
  calls : ℕ → HandleCall → Call
  drops : ℕ → ℕ → Call

unfoldable pub step : Tracker → Call → Tracker
step t (starts kind target route client system_now now) =
    start kind target route client system_now now t
step t (calls id c) = call_handle id c t
step t (drops id now) = close id now t

unfoldable pub run : Tracker → List Call → Tracker
run t [] = t
run t (c ∷ cs) = run (step t c) cs
