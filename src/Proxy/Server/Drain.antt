-- ===== src/Proxy/Server/Drain.antt =====
-- The end of a drain.
use zicade_rs.Prelude.{ℕ, ◌+◌, ◌≡◌, ◌⊎◌, List, [], ◌∷◌, length}
use zicade_rs.Proxy.Server.{
  Task, spawned, serving, upgrading, ended, Phase, accepting, draining, aborting, stopped, Conn,
  Server, DrainStep, TaskStep,
}

-- The steps that a task can still cause, and those of the drain.
abbrev pub task_steps : Task → ℕ
task_steps spawned = 6
task_steps serving = 5
task_steps upgrading = 2
task_steps ended = 1

abbrev pub phase_steps : Phase → ℕ
phase_steps accepting = 3
phase_steps draining = 2
phase_steps aborting = 1
phase_steps stopped = 0

module _ {R : Type 0} where
  abbrev pub conns_steps : List (Conn R) → ℕ
  conns_steps [] = 0
  conns_steps (c ∷ cs) = task_steps c.task + conns_steps cs

  abbrev pub steps_left : Server R → ℕ
  steps_left s = conns_steps s.conns + length s.tunnels + phase_steps s.phase

  -- A drain is on, or it is over with nothing in the set.
  abbrev IsDrained : Phase → List (Conn R) → Type 0
  IsDrained accepting cs = ⊥
  IsDrained draining cs = Unit
  IsDrained aborting cs = Unit
  IsDrained stopped cs = cs ≡ []

  -- The run is over with no connection task left, or it goes on.
  abbrev pub IsOverOrGoesOn : Server R → Type 0
  IsOverOrGoesOn u =
      ((u.phase ≡ stopped) × (u.conns ≡ [])) ⊎ ((v : Server R) × (DrainStep u v ⊎ TaskStep u v))
