-- ===== src/Proxy/Server.antt =====
-- crates/zicade-proxy/src/server.rs: the live routing, the accept loop, and the drain at shutdown, as steps
-- between which anything else may run. A task of the set is one connection; the gauge of active
-- connections is the guard of `handle_connection`. A CONNECT that is answered spawns its tunnel as a task
-- of its own, outside the set, and the connection's task ends at the upgrade. `granted` is what was
-- handed to each connection, by its number; the code keeps no such list.
pub mod Sound
pub mod Drain
use zicade_rs.Prelude.{ℕ, suc, ◌+◌, ◌-◌, ◌≡◌, ◌≢◌, List, [], ◌∷◌, ◌++◌, map}

abbrev pub default_shutdown_timeout_seconds : ℕ
default_shutdown_timeout_seconds = 10

pub data Task : Type 0 where
  spawned serving upgrading ended : Task

pub data Phase : Type 0 where
  accepting draining aborting stopped : Phase

pub record Conn (R : Type 0) : Type 0 where
  pub number : ℕ
  pub routing : R
  pub task : Task

pub record Server (R : Type 0) : Type 0 where
  pub routing : R
  pub conns : List (Conn R)
  pub tunnels : List (Conn R)
  pub active : ℕ
  pub accepted : ℕ
  pub phase : Phase
  pub granted : List (ℕ × R)

-- Whether the task holds its guard.
abbrev pub one_if_active : Task → ℕ
one_if_active serving = 1
one_if_active upgrading = 1
one_if_active spawned = 0
one_if_active ended = 0

module _ {R : Type 0} where
  -- `bind` with `with_routing`.
  abbrev pub new_server : R → Server R
  new_server routing = record {
    routing = routing;
    conns = [];
    tunnels = [];
    active = 0;
    accepted = 0;
    phase = accepting;
    granted = [];
  }

  abbrev pub spawn : Server R → Server R
  spawn s = record s {
    conns = s.conns ++ (record { number = s.accepted; routing = s.routing; task = spawned } ∷ []);
    accepted = s.accepted + 1;
    granted = (s.accepted, s.routing) ∷ s.granted;
  }

  abbrev pub active_count : List (Conn R) → ℕ
  active_count [] = 0
  active_count (c ∷ cs) = one_if_active c.task + active_count cs

  -- One task of the set changes, and the gauge with it.
  abbrev pub move : Server R → List (Conn R) → List (Conn R) → Conn R → Task → ℕ → Server R
  move s before after c task active = record s {
    conns = before ++ (record c { task = task } ∷ after);
    active = active;
  }

  -- What `drain` does by itself: it joins an ended task, asks every task to end once the wait has run
  -- out, or returns.
  pub data DrainStep : Server R → Server R → Type 0 where
    join :
        (s : Server R) (before after : List (Conn R)) (c : Conn R)
        → s.phase ≢ stopped
        → s.conns ≡ before ++ (c ∷ after)
        → c.task ≡ ended
        → DrainStep s (record s { conns = before ++ after })
    abort_all : (s : Server R) → s.phase ≡ draining → DrainStep s (record s { phase = aborting })
    finished :
        (s : Server R)
        → s.phase ≢ accepting
        → s.phase ≢ stopped
        → s.conns ≡ []
        → DrainStep s (record s { phase = stopped })

  -- What the tasks do: a connection begins, answers a CONNECT, ends, or is cancelled where it stands
  -- after `abort_all`; a tunnel ends.
  pub data TaskStep : Server R → Server R → Type 0 where
    begin :
        (s : Server R) (before after : List (Conn R)) (c : Conn R)
        → s.conns ≡ before ++ (c ∷ after)
        → c.task ≡ spawned
        → TaskStep s (move s before after c serving (s.active + 1))
    detach :
        (s : Server R) (before after : List (Conn R)) (c : Conn R)
        → s.conns ≡ before ++ (c ∷ after)
        → c.task ≡ serving
        → TaskStep s (record (move s before after c upgrading s.active) { tunnels = c ∷ s.tunnels })
    end :
        (s : Server R) (before after : List (Conn R)) (c : Conn R)
        → s.conns ≡ before ++ (c ∷ after)
        → one_if_active c.task ≡ 1
        → TaskStep s (move s before after c ended (s.active - 1))
    cancelled :
        (s : Server R) (before after : List (Conn R)) (c : Conn R)
        → s.phase ≡ aborting
        → s.conns ≡ before ++ (c ∷ after)
        → c.task ≢ ended
        → TaskStep s (move s before after c ended (s.active - one_if_active c.task))
    tunnel_end :
        (s : Server R) (before after : List (Conn R)) (c : Conn R)
        → s.tunnels ≡ before ++ (c ∷ after)
        → TaskStep s (record s { tunnels = before ++ after })

  -- The steps of the program: of the handle, of the accept loop, which also joins, and of the tasks.
  pub data Step : Server R → Server R → Type 0 where
    set : (s : Server R) (routing : R) → Step s (record s { routing = routing })
    accept : (s : Server R) → s.phase ≡ accepting → Step s (spawn s)
    accept_error : (s : Server R) → s.phase ≡ accepting → Step s s
    shutdown : (s : Server R) → s.phase ≡ accepting → Step s (record s { phase = draining })
    of_task : {s u : Server R} → TaskStep s u → Step s u
    of_drain : {s u : Server R} → DrainStep s u → Step s u

  pub data Reach (s : Server R) : Server R → Type 0 where
    here : Reach s s
    next : {t u : Server R} → Reach s t → Step t u → Reach s u

  -- A run from a shutdown on, with the number of its steps; edits of the routing come in between.
  pub data Drains : ℕ → Server R → Server R → Type 0 where
    so_far : (s : Server R) → Drains 0 s s
    by_drain : {n : ℕ} {s t u : Server R} → DrainStep s t → Drains n t u → Drains (suc n) s u
    by_task : {n : ℕ} {s t u : Server R} → TaskStep s t → Drains n t u → Drains (suc n) s u
    by_handle :
        {n : ℕ} {u : Server R} (s : Server R) (routing : R)
        → Drains n (record s { routing = routing }) u
        → Drains n s u
