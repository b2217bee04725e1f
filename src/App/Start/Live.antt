-- ===== src/App/Start/Live.antt =====
-- The routing that a started program keeps live.
use zicade_rs.Prelude.{true, false, ◌⊎◌, ◌≡◌, Result}
use zicade_rs.Text.{Str}
use zicade_rs.Auth.Header.{Base64}
use zicade_rs.Config.Model.{Config}
use zicade_rs.Config.Validate.{ValidationCtx}
use zicade_rs.Config.Validate.Valid.{IsValid}
use zicade_rs.Control.{Control, routing_mode_label}
use zicade_rs.App.Build.{Routing}
use zicade_rs.App.Gate.{gate_enabled}
use zicade_rs.App.Gate.Live.{IsGate}
use zicade_rs.App.Start.{Running, rebuild}
use zicade_rs.Control as Handle

module _ (b : Base64) (thread : Config → Result Str (Unit {0})) where
  -- Off the network or without a gate, what the handle holds at first is what is wanted.
  IsFirst : Config → Routing → Type 0
  IsFirst config held =
      ((gate_enabled config ≡ false) × (held ≡ rebuild b thread config))
      ⊎ ((gate_enabled config ≡ true) × (held ≡ Routing.direct))

  -- The gate is in order and has the current configuration, which is valid.
  pub record IsRunning {D : Type 0} (ctx : ValidationCtx) (c : Control D Running) : Type 0 where
    pub valid : IsValid ctx c.config
    pub gate : IsGate Routing.direct (rebuild b thread) c.live.gate
    pub current : c.live.gate.config ≡ c.config
