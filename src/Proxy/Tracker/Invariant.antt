-- ===== src/Proxy/Tracker/Invariant.antt =====
-- What holds of the book and of the counters in every state.
use zicade_rs.Prelude.{
  ℕ, ◌+◌, ◌-◌, ◌≤◌, ◌<◌, Bool, Option, some, List, [], ◌∷◌, ◌++◌, ◌≡◌, refl, arith, if◌then◌else◌,
  length, length-append, Option-cases, inl, inr,
}
use zicade_rs.Text.{Str}
use zicade_rs.Proxy.Tracker.{
  ConnectionKind, ConnectionSnapshot, Entry, Tracker, ProxyMetrics, u64_modulus, history_len, new,
  add_u64, HandleCall, add_up, add_down, set_route, set_open, set_status, fail, call_entry,
  call_metrics, find_entry, update_entry, remove_entry, first_entry, start, call_handle, close,
  pop_front, push_history, Call, starts, calls, drops, step, run,
}
use zicade_rs.Proxy.Tracker.Book.{
  Ascends, UpTo, UpTo-le, insert_entry-append, Ascends-concat, UpTo-concat, Ascends-update,
  UpTo-update, Ascends-remove, UpTo-remove,
}

abbrev pub unfailed : List Entry → ℕ
unfailed [] = 0
unfailed (e ∷ es) = (if e.has_failed then 0 else 1) + unfailed es

abbrev pub open_up : List Entry → ℕ
open_up [] = 0
open_up (e ∷ es) = e.up + open_up es

abbrev pub open_down : List Entry → ℕ
open_down [] = 0
open_down (e ∷ es) = e.down + open_down es

abbrev pub history_up : List ConnectionSnapshot → ℕ
history_up [] = 0
history_up (s ∷ ss) = s.bytes_up + history_up ss

abbrev pub history_down : List ConnectionSnapshot → ℕ
history_down [] = 0
history_down (s ∷ ss) = s.bytes_down + history_down ss

-- The open entries have distinct ids that were given out; the history is bounded; a request is
-- counted for each id; a failure is counted at most once for each connection; and the connections
-- that are listed have no more bytes than the totals.
pub record IsBook (t : Tracker) : Type 0 where
  pub ascends : Ascends 0 t.open_entries
  pub given_out : UpTo t.next_id t.open_entries
  pub short_history : length t.history ≤ history_len
  pub requests : t.metrics.total_requests ≡ t.next_id
  pub failures : t.metrics.failed_requests + unfailed t.open_entries ≤ t.metrics.total_requests
  pub up_total : open_up t.open_entries + history_up t.history ≤ t.metrics.bytes_out
  pub down_total : open_down t.open_entries + history_down t.history ≤ t.metrics.bytes_in

pub new-IsBook : IsBook new
new-IsBook = omega arith

-- The counters do not wrap during the calls.
abbrev pub call_starts : Call → ℕ
call_starts (starts kind target route client system_now now) = 1
call_starts _ = 0

abbrev pub call_up : Call → ℕ
call_up (calls id (add_up n)) = n
call_up _ = 0

abbrev pub call_down : Call → ℕ
call_down (calls id (add_down n)) = n
call_down _ = 0

abbrev pub total : (Call → ℕ) → List Call → ℕ
total f [] = 0
total f (c ∷ cs) = f c + total f cs

pub record HasRoom (t : Tracker) (cs : List Call) : Type 0 where
  pub ids : t.next_id + total call_starts cs < u64_modulus
  pub sent : t.metrics.bytes_out + total call_up cs < u64_modulus
  pub received : t.metrics.bytes_in + total call_down cs < u64_modulus

-- A step keeps the invariant, and raises the counters by no more than the call's share.
record Keeps (t : Tracker) (c : Call) (q : Tracker) : Type 0 where
  book : IsBook q
  ids : q.next_id ≤ t.next_id + call_starts c
  sent : q.metrics.bytes_out ≤ t.metrics.bytes_out + call_up c
  received : q.metrics.bytes_in ≤ t.metrics.bytes_in + call_down c

concat_measures :
    (es : List Entry) (e : Entry)
    → (unfailed (es ++ e ∷ []) ≡ unfailed es + unfailed (e ∷ []))
      × (open_up (es ++ e ∷ []) ≡ open_up es + e.up)
      × (open_down (es ++ e ∷ []) ≡ open_down es + e.down)
concat_measures [] e = omega arith
concat_measures (x ∷ xs) e = omega (arith, concat_measures xs e)

history_concat :
    (ss : List ConnectionSnapshot) (s : ConnectionSnapshot)
    → (history_up (ss ++ s ∷ []) ≡ history_up ss + s.bytes_up)
      × (history_down (ss ++ s ∷ []) ≡ history_down ss + s.bytes_down)
history_concat [] s = omega arith
history_concat (x ∷ xs) s = omega (arith, history_concat xs s)

start-Keeps :
    (kind : ConnectionKind) (target route : Str) (client : Option Str) (system_now now : ℕ)
    (t : Tracker)
    → IsBook t
    → HasRoom t (starts kind target route client system_now now ∷ [])
    → Keeps t
        (starts kind target route client system_now now)
        (start kind target route client system_now now t)
unfolding start
start-Keeps kind target route client system_now now t v room =
    let raised : add_u64 t.next_id 1 ≡ t.next_id + 1 = omega (arith, room.ids) in
    let e = first_entry (t.next_id + 1) kind target route client system_now now in
    let appended = insert_entry-append e t.next_id t.open_entries v.given_out (omega arith) in
    let m = concat_measures t.open_entries e in
    rw (raised, appended)
      (record {
        book = record {
          ascends =
              Ascends-concat 0 t.next_id t.open_entries e v.ascends v.given_out (omega arith)
                (omega arith);
          given_out =
              UpTo-concat (t.next_id + 1) t.open_entries e
                (UpTo-le t.next_id (t.next_id + 1) t.open_entries (omega arith) v.given_out)
                (omega arith);
          short_history = v.short_history;
          requests = omega (arith, v.requests, room.ids);
          failures = omega (arith, v.requests, v.failures, room.ids, m);
          up_total = omega (arith, v.up_total, m);
          down_total = omega (arith, v.down_total, m);
        };
        ids = omega arith;
        sent = omega arith;
        received = omega arith;
      })

update_measures :
    (id : ℕ) (c : HandleCall) (es : List Entry) (e : Entry)
    → find_entry id es ≡ some e
    → (unfailed (update_entry id (call_entry c) es) + unfailed (e ∷ [])
        ≡ unfailed es + unfailed (call_entry c e ∷ []))
      × (open_up (update_entry id (call_entry c) es) + e.up ≡ open_up es + (call_entry c e).up)
      × (open_down (update_entry id (call_entry c) es) + e.down
          ≡ open_down es + (call_entry c e).down)
unfolding find_entry update_entry
update_measures id c [] e h = cc
update_measures id c (x ∷ xs) e h = ground (arith, update_measures id c xs e)

remove_measures :
    (id : ℕ) (es : List Entry) (e : Entry)
    → find_entry id es ≡ some e
    → (unfailed (remove_entry id es) + unfailed (e ∷ []) ≡ unfailed es)
      × (open_up (remove_entry id es) + e.up ≡ open_up es)
      × (open_down (remove_entry id es) + e.down ≡ open_down es)
unfolding find_entry remove_entry
remove_measures id [] e h = cc
remove_measures id (x ∷ xs) e h = ground (arith, remove_measures id xs e)

pop_front_measures :
    (ss : List ConnectionSnapshot)
    → (length (pop_front ss) ≡ length ss - 1)
      × (history_up (pop_front ss) ≤ history_up ss)
      × (history_down (pop_front ss) ≤ history_down ss)
pop_front_measures [] = omega arith
pop_front_measures (s ∷ ss) = omega arith

push_history_measures :
    (s : ConnectionSnapshot) (ss : List ConnectionSnapshot)
    → length ss ≤ history_len
    → (length (push_history s ss) ≤ history_len)
      × (history_up (push_history s ss) ≤ history_up ss + s.bytes_up)
      × (history_down (push_history s ss) ≤ history_down ss + s.bytes_down)
unfolding push_history
push_history_measures s ss h = ground (
  arith,
  pop_front_measures ss,
  length-append ss (s ∷ []),
  length-append (pop_front ss) (s ∷ []),
  history_concat ss s,
  history_concat (pop_front ss) s,
)

-- What a call does to an entry's share and to the totals, where neither counter wraps.
record Agrees (c : HandleCall) (e : Entry) (m n : ProxyMetrics) : Type 0 where
  same_requests : n.total_requests ≡ m.total_requests
  fails : n.failed_requests + unfailed (call_entry c e ∷ []) ≡ m.failed_requests + unfailed (e ∷ [])
  ups : n.bytes_out + e.up ≡ m.bytes_out + (call_entry c e).up
  downs : n.bytes_in + e.down ≡ m.bytes_in + (call_entry c e).down

call_metrics-Agrees :
    (id : ℕ) (c : HandleCall) (e : Entry) (m : ProxyMetrics)
    → e.up ≤ m.bytes_out
    → e.down ≤ m.bytes_in
    → m.failed_requests + unfailed (e ∷ []) < u64_modulus
    → m.bytes_out + call_up (calls id c) < u64_modulus
    → m.bytes_in + call_down (calls id c) < u64_modulus
    → Agrees c e m (call_metrics c e.has_failed m)
unfolding call_metrics call_entry
call_metrics-Agrees id (add_up n) e m a b f u d = ground arith
call_metrics-Agrees id (add_down n) e m a b f u d = ground arith
call_metrics-Agrees id (set_route r) e m a b f u d = ground arith
call_metrics-Agrees id set_open e m a b f u d = ground arith
call_metrics-Agrees id (set_status n) e m a b f u d = ground arith
call_metrics-Agrees id (fail why) e m a b f u d = ground arith

call_metrics_growth :
    (id : ℕ) (c : HandleCall) (has_failed : Bool) (m : ProxyMetrics)
    → ((call_metrics c has_failed m).bytes_out ≤ m.bytes_out + call_up (calls id c))
      × ((call_metrics c has_failed m).bytes_in ≤ m.bytes_in + call_down (calls id c))
unfolding call_metrics
call_metrics_growth id (add_up n) f m = ground arith
call_metrics_growth id (add_down n) f m = ground arith
call_metrics_growth id _ f m = ground arith

find_entry_share :
    (id : ℕ) (es : List Entry) (e : Entry)
    → find_entry id es ≡ some e
    → (e.up ≤ open_up es) × (e.down ≤ open_down es) × (unfailed (e ∷ []) ≤ unfailed es)
find_entry_share id es e h = omega (arith, remove_measures id es e h)

-- A call on a handle, where the handle is there.
call_found-Keeps :
    (id : ℕ) (c : HandleCall) (t : Tracker) (e : Entry)
    → IsBook t
    → HasRoom t (calls id c ∷ [])
    → find_entry id t.open_entries ≡ some e
    → Keeps t (calls id c) (record t {
      open_entries = update_entry id (call_entry c) t.open_entries;
      metrics = call_metrics c e.has_failed t.metrics;
    })
call_found-Keeps id c t e v room h =
    let share = find_entry_share id t.open_entries e h in
    let m = update_measures id c t.open_entries e h in
    let grow = call_metrics_growth id c e.has_failed t.metrics in
    let a =
      call_metrics-Agrees id c e t.metrics (omega (arith, share, v.up_total))
        (omega (arith, share, v.down_total))
        (omega (arith, share, v.failures, v.requests, room.ids)) (omega (arith, room.sent))
        (omega (arith, room.received)) in
    record {
      book = record {
        ascends = Ascends-update 0 id c t.open_entries v.ascends;
        given_out = UpTo-update t.next_id id c t.open_entries v.given_out;
        short_history = v.short_history;
        requests = omega (arith, a.same_requests, v.requests);
        failures = omega (arith, a.same_requests, a.fails, v.failures, m);
        up_total = omega (arith, a.ups, v.up_total, m, share);
        down_total = omega (arith, a.downs, v.down_total, m, share);
      };
      ids = omega arith;
      sent = grow.0;
      received = grow.1;
    }

stays-Keeps : (t : Tracker) (c : Call) → IsBook t → Keeps t c t
stays-Keeps t c v = record {
  book = v;
  ids = omega arith;
  sent = omega arith;
  received = omega arith;
}

close_found-Keeps :
    (id now : ℕ) (t : Tracker) (e : Entry) (finished : ConnectionSnapshot)
    → IsBook t
    → finished.bytes_up ≡ e.up
    → finished.bytes_down ≡ e.down
    → find_entry id t.open_entries ≡ some e
    → Keeps t (drops id now) (record t {
      open_entries = remove_entry id t.open_entries;
      history = push_history finished t.history;
    })
close_found-Keeps id now t e s v u d h =
    let m = remove_measures id t.open_entries e h in
    let p = push_history_measures s t.history v.short_history in
    record {
      book = record {
        ascends = Ascends-remove 0 id t.open_entries v.ascends;
        given_out = UpTo-remove t.next_id id t.open_entries v.given_out;
        short_history = p.0;
        requests = v.requests;
        failures = omega (arith, v.failures, m);
        up_total = omega (arith, v.up_total, m, p, u);
        down_total = omega (arith, v.down_total, m, p, d);
      };
      ids = omega arith;
      sent = omega arith;
      received = omega arith;
    }

step-Keeps : (t : Tracker) (c : Call) → IsBook t → HasRoom t (c ∷ []) → Keeps t c (step t c)
unfolding step
step-Keeps t (starts kind target route client system_now now) v room =
    start-Keeps kind target route client system_now now t v room
step-Keeps t (calls id c) v room = elim (Option-cases (find_entry id t.open_entries)) [
  | inl e ↦ unfold call_handle in rw (e, call_handle) (stays-Keeps t (calls id c) v)
  | inr (x, e) ↦ unfold call_handle in rw (e, call_handle) (call_found-Keeps id c t x v room e)
]
step-Keeps t (drops id now) v room = elim (Option-cases (find_entry id t.open_entries)) [
  | inl e ↦ unfold close in rw (e, close) (stays-Keeps t (drops id now) v)
  | inr (x, e) ↦ unfold close in rw (e, close) (close_found-Keeps id now t x _ v refl refl e)
]

-- However calls, drops and new connections interleave, the book stays sound: the open entries have
-- distinct ids that were given out, at most 200 finished connections are kept, every connection is
-- counted as one request and at most one failure, and the connections that are listed never show
-- more bytes than the totals, in each direction. The counters must not wrap on the way.
pub run-IsBook : (t : Tracker) (cs : List Call) → IsBook t → HasRoom t cs → IsBook (run t cs)
unfolding run
run-IsBook t [] v room = v
run-IsBook t (c ∷ cs) v room =
    let k = step-Keeps t c v (record {
      ids = omega (arith, room.ids);
      sent = omega (arith, room.sent);
      received = omega (arith, room.received);
    }) in
    run-IsBook (step t c) cs k.book (record {
      ids = omega (arith, room.ids, k.ids);
      sent = omega (arith, room.sent, k.sent);
      received = omega (arith, room.received, k.received);
    })
