-- ===== src/Proxy/Tracker/Outcome.antt =====
-- What becomes of one connection, whatever the others do meanwhile.
use zicade_rs.Prelude.{
  ◌-◌, refl, ◌%◌, ◌⊎◌, ap, false, true, Bool-cases, Option-cases, ==_iff, ℕ, suc, ◌+◌, ◌≤◌, ◌<◌,
  Option, none, some, List, [], ◌∷◌, ◌≡◌, ◌≢◌, inl, inr, ◌∙◌, arith, ◌==◌, if◌then◌else◌,
}
use zicade_rs.Text.{Str}
use zicade_rs.Proxy.Tracker.{
  first_entry, ConnectionSnapshot, ConnectionKind, connecting, relaying, closed, failed, add_up,
  add_down, set_route, set_open, set_status, fail, close_state, snapshot_entry, push_history,
  ConnectionState, Entry, Tracker, u64_modulus, add_u64, HandleCall, call_entry, find_entry, start,
  call_handle, close, Call, starts, calls, drops, step, run,
}
use zicade_rs.Proxy.Tracker.Book.{
  find_entry-insert, find_entry-insert_ne, find_entry-update_ne, find_entry-update,
  find_entry-remove_ne,
}

-- The calls on one handle in a history, in their order.
abbrev pub calls_on : ℕ → List Call → List HandleCall
calls_on id [] = []
calls_on id (calls j c ∷ cs) = if j == id then c ∷ calls_on id cs else calls_on id cs
calls_on id (starts kind target route client system_now now ∷ cs) = calls_on id cs
calls_on id (drops j now ∷ cs) = calls_on id cs

abbrev pub call_all : List HandleCall → Entry → Entry
call_all [] e = e
call_all (c ∷ cs) e = call_all cs (call_entry c e)

-- How many connections a history starts.
abbrev pub started_by : List Call → ℕ
started_by [] = 0
started_by (starts kind target route client system_now now ∷ cs) = suc (started_by cs)
started_by (calls j c ∷ cs) = started_by cs
started_by (drops j now ∷ cs) = started_by cs

-- The handle is not dropped.
abbrev pub KeepsHandle : ℕ → List Call → Type 0
KeepsHandle id [] = Unit {0}
KeepsHandle id (drops j now ∷ cs) = (j ≢ id) × KeepsHandle id cs
KeepsHandle id (calls j c ∷ cs) = KeepsHandle id cs
KeepsHandle id (starts kind target route client system_now now ∷ cs) = KeepsHandle id cs

-- The first reason that was given for a failure.
abbrev pub first_failure : List HandleCall → Option Str
first_failure [] = none
first_failure (fail why ∷ cs) = some why
first_failure (_ ∷ cs) = first_failure cs

abbrev pub final_state : Option Str → ConnectionState
final_state none = closed
final_state (some why) = failed why

call_handle_ne :
    (id j : ℕ) (c : HandleCall) (t : Tracker)
    → j ≢ id
    → find_entry id (call_handle j c t).open_entries ≡ find_entry id t.open_entries
unfolding call_handle
call_handle_ne id j c t h = elim (Option-cases (find_entry j t.open_entries)) [
  | inl e ↦ rw (e, call_handle)
  | inr (x, e) ↦ rw (e, call_handle) (find_entry-update_ne id j c t.open_entries h)
]

call_handle_eq :
    (id : ℕ) (c : HandleCall) (t : Tracker) (e : Entry)
    → find_entry id t.open_entries ≡ some e
    → find_entry id (call_handle id c t).open_entries ≡ some (call_entry c e)
unfolding call_handle
call_handle_eq id c t e h = rw (h, call_handle) (find_entry-update id c t.open_entries e h)

call_handle_next_id :
    (id : ℕ) (c : HandleCall) (t : Tracker) → (call_handle id c t).next_id ≡ t.next_id
unfolding call_handle
call_handle_next_id id c t = ground arith

close_next_id : (id now : ℕ) (t : Tracker) → (close id now t).next_id ≡ t.next_id
unfolding close
close_next_id id now t = ground arith

close_ne :
    (id j now : ℕ) (t : Tracker)
    → j ≢ id
    → find_entry id (close j now t).open_entries ≡ find_entry id t.open_entries
unfolding close
close_ne id j now t h = elim (Option-cases (find_entry j t.open_entries)) [
  | inl e ↦ rw (e, close)
  | inr (x, e) ↦ rw (e, close) (find_entry-remove_ne id j t.open_entries h)
]

-- The entry of a handle that is not dropped has been through the handle's own calls, and through
-- nothing else.
find_entry-run :
    (id : ℕ) (cs : List Call) (t : Tracker) (e : Entry)
    → id ≤ t.next_id
    → t.next_id + started_by cs < u64_modulus
    → KeepsHandle id cs
    → find_entry id t.open_entries ≡ some e
    → find_entry id (run t cs).open_entries ≡ some (call_all (calls_on id cs) e)
unfolding run step
find_entry-run id [] t e le room keeps h = h
find_entry-run id (starts kind target route client system_now now ∷ cs) t e le room keeps h =
    let next = start kind target route client system_now now t in
    let raised : add_u64 t.next_id 1 ≡ t.next_id + 1 = omega arith in
    find_entry-run id cs next e (unfold start in omega (arith, raised))
      (unfold start in omega (arith, raised)) keeps
      (unfold start in find_entry-insert_ne id _ t.open_entries (omega (arith, raised)) ∙ h)
find_entry-run id (calls j c ∷ cs) t e le room keeps h = elim (Bool-cases (j == id)) [
  | inl same ↦ rw same (
      find_entry-run id cs (call_handle j c t) (call_entry c e) (rw (call_handle_next_id j c t) le)
        (rw (call_handle_next_id j c t) room) keeps
        (rw ((==_iff j id).0 same) (call_handle_eq id c t e h)))
  | inr apart ↦ rw apart (
      find_entry-run id cs (call_handle j c t) e (rw (call_handle_next_id j c t) le)
        (rw (call_handle_next_id j c t) room) keeps (call_handle_ne id j c t (ground arith) ∙ h))
]
find_entry-run id (drops j now ∷ cs) t e le room keeps h =
    find_entry-run id cs (close j now t) e (rw (close_next_id j now t) le)
      (rw (close_next_id j now t) room) keeps.1 (close_ne id j now t keeps.0 ∙ h)

call_entry-failed :
    (c : HandleCall) (e : Entry) {why : Str}
    → e.has_failed ≡ true
    → e.state ≡ failed why
    → ((call_entry c e).has_failed ≡ true) × ((call_entry c e).state ≡ failed why)
unfolding call_entry
call_entry-failed (fail why) e f s = ground arith
call_entry-failed _ e f s = ground arith

-- The first failure is final.
call_all-failed :
    (cs : List HandleCall) (e : Entry) {why : Str}
    → e.has_failed ≡ true
    → e.state ≡ failed why
    → (call_all cs e).state ≡ failed why
call_all-failed [] e f s = s
call_all-failed (c ∷ cs) e f s =
    let (f', s') = call_entry-failed c e f s in call_all-failed cs (call_entry c e) f' s'

-- Not failed, and still on its way.
abbrev IsRunning : Entry → Type 0
IsRunning e = (e.has_failed ≡ false) × ((e.state ≡ connecting) ⊎ (e.state ≡ relaying))

call_all_outcome :
    (cs : List HandleCall) (e : Entry)
    → IsRunning e
    → close_state (call_all cs e).state ≡ final_state (first_failure cs)
unfolding call_entry
call_all_outcome [] e r = ground arith
call_all_outcome (fail why ∷ cs) e r =
    ap close_state (call_all-failed cs (call_entry (fail why) e) (ground arith) (ground arith))
call_all_outcome (add_up n ∷ cs) e r = call_all_outcome cs (call_entry (add_up n) e) r
call_all_outcome (add_down n ∷ cs) e r = call_all_outcome cs (call_entry (add_down n) e) r
call_all_outcome (set_route x ∷ cs) e r = call_all_outcome cs (call_entry (set_route x) e) r
call_all_outcome (set_open ∷ cs) e r = call_all_outcome cs (call_entry set_open e) (ground arith)
call_all_outcome (set_status n ∷ cs) e r =
    call_all_outcome cs (call_entry (set_status n) e) (ground arith)

-- The bytes that a list of calls counts, up and down.
abbrev pub up_bytes : List HandleCall → ℕ
up_bytes [] = 0
up_bytes (add_up n ∷ cs) = n + up_bytes cs
up_bytes (_ ∷ cs) = up_bytes cs

abbrev pub down_bytes : List HandleCall → ℕ
down_bytes [] = 0
down_bytes (add_down n ∷ cs) = n + down_bytes cs
down_bytes (_ ∷ cs) = down_bytes cs

call_all_up :
    (cs : List HandleCall) (e : Entry)
    → e.up < u64_modulus
    → (call_all cs e).up ≡ (e.up + up_bytes cs) % u64_modulus
unfolding call_entry
call_all_up [] e h = omega arith
call_all_up (add_up n ∷ cs) e h =
    omega (arith, call_all_up cs (call_entry (add_up n) e) (omega arith))
call_all_up (add_down n ∷ cs) e h = call_all_up cs (call_entry (add_down n) e) h
call_all_up (set_route x ∷ cs) e h = call_all_up cs (call_entry (set_route x) e) h
call_all_up (set_open ∷ cs) e h = call_all_up cs (call_entry set_open e) h
call_all_up (set_status n ∷ cs) e h = call_all_up cs (call_entry (set_status n) e) h
call_all_up (fail why ∷ cs) e h = ground (arith, call_all_up cs (call_entry (fail why) e))

call_all_down :
    (cs : List HandleCall) (e : Entry)
    → e.down < u64_modulus
    → (call_all cs e).down ≡ (e.down + down_bytes cs) % u64_modulus
unfolding call_entry
call_all_down [] e h = omega arith
call_all_down (add_down n ∷ cs) e h =
    omega (arith, call_all_down cs (call_entry (add_down n) e) (omega arith))
call_all_down (add_up n ∷ cs) e h = call_all_down cs (call_entry (add_up n) e) h
call_all_down (set_route x ∷ cs) e h = call_all_down cs (call_entry (set_route x) e) h
call_all_down (set_open ∷ cs) e h = call_all_down cs (call_entry set_open e) h
call_all_down (set_status n ∷ cs) e h = call_all_down cs (call_entry (set_status n) e) h
call_all_down (fail why ∷ cs) e h = ground (arith, call_all_down cs (call_entry (fail why) e))

call_all_fixed :
    (cs : List HandleCall) (e : Entry)
    → ((call_all cs e).id ≡ e.id) × ((call_all cs e).target ≡ e.target)
unfolding call_entry
call_all_fixed [] e = (refl, refl)
call_all_fixed (fail why ∷ cs) e = ground (arith, call_all_fixed cs (call_entry (fail why) e))
call_all_fixed (c ∷ cs) e = ground (arith, call_all_fixed cs (call_entry c e))

-- A connection that is started, then used by its own calls `calls_on id cs` among any calls and
-- drops of others, and then dropped, enters the history with its id and target, as failed with the
-- first reason that was given and as closed if none was, with the bytes of its own calls, up to the
-- counters' wrap-around. The ids must not have wrapped.
pub connection_outcome :
    (kind : ConnectionKind) (target route : Str) (client : Option Str) (system_now now later : ℕ)
    (t : Tracker) (cs : List Call)
    → let id = t.next_id + 1 in
      id + started_by cs < u64_modulus
      → KeepsHandle id cs
      → let q = run (start kind target route client system_now now t) cs in
        (s : ConnectionSnapshot) × ((close id later q).history ≡ push_history s q.history)
        × (s.id ≡ id)
        × (s.target ≡ target)
        × (s.state ≡ final_state (first_failure (calls_on id cs)))
        × (s.bytes_up ≡ up_bytes (calls_on id cs) % u64_modulus)
        × (s.bytes_down ≡ down_bytes (calls_on id cs) % u64_modulus)
connection_outcome kind target route client system_now now later t cs room keeps =
    let raised : add_u64 t.next_id 1 ≡ t.next_id + 1 = omega arith in
    let begun = start kind target route client system_now now t in
    let q = run begun cs in
    let id = t.next_id + 1 in
    let first = first_entry id kind target route client system_now now in
    let last = call_all (calls_on id cs) first in
    let found : find_entry id q.open_entries ≡ some last =
      find_entry-run id cs begun first (unfold start in omega (arith, raised))
        (unfold start in omega (arith, raised)) keeps
        (unfold start in rw raised (find_entry-insert first t.open_entries)) in
    (
      snapshot_entry (later - last.started) (record last { state = close_state last.state }),
      unfold close in rw (found, close),
      (call_all_fixed (calls_on id cs) first).0,
      (call_all_fixed (calls_on id cs) first).1,
      call_all_outcome (calls_on id cs) first (refl, inl refl),
      omega (arith, call_all_up (calls_on id cs) first (omega arith)),
      omega (arith, call_all_down (calls_on id cs) first (omega arith)),
    )
