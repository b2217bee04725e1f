-- ===== src/App/Gate/Live.antt =====
-- The routing that the gate keeps live is the one its configuration and the network ask for.
use zicade_rs.Prelude.{
  Bool, true, false, some, none, Option, [], ◌∷◌, List, arith, if◌then◌else◌, ◌≡◌,
}
use zicade_rs.App.Gate.{
  on_corp, Str, Config, GateInner, Call, look, configure, evaluate, reconfigure, apply, gate_params,
  gate_enabled,
}

-- The network that a call saw, and the configuration that it leaves.
abbrev pub seen : Call → List Str
seen (look active) = active
seen (configure config active) = active

abbrev pub asked : Call → Config → Config
asked (look active) config = config
asked (configure config active) old = config

abbrev pub latest : List Call → Config → Config
latest [] config = config
latest (c ∷ cs) config = latest cs (asked c config)

module _ {R : Type 0} (direct : R) (rebuild : Config → R) where
  -- The configured routing, `direct` in its place while an enabled gate is off the network.
  abbrev pub wanted : Config → List Str → R
  wanted config active =
      if gate_enabled config
      then (if on_corp active (gate_params config).suffixes then rebuild config else direct)
      else rebuild config

  abbrev pub IsRemembered : Option Bool → R → Config → Type 0
  IsRemembered none live config = Unit {0}
  IsRemembered (some true) live config = live ≡ rebuild config
  IsRemembered (some false) live config = live ≡ direct

  pub record IsGate (g : GateInner R) : Type 0 where
    pub gate_on : g.enabled ≡ (gate_params g.config).enabled
    pub same_suffixes : g.suffixes ≡ (gate_params g.config).suffixes
    pub same_poll : g.poll ≡ (gate_params g.config).poll
    pub remembered : IsRemembered g.last g.live g.config
    pub dormant : g.enabled ≡ false → g.live ≡ rebuild g.config

  pub gate_params-enabled : (config : Config) → (gate_params config).enabled ≡ gate_enabled config
  unfolding gate_params gate_enabled
  gate_params-enabled config = ground arith

  pub evaluate-IsGate :
      (active : List Str) (g : GateInner R)
      → IsGate g
      → IsGate (evaluate direct rebuild active g)
        × ((evaluate direct rebuild active g).live ≡ wanted g.config active)
        × ((evaluate direct rebuild active g).config ≡ g.config)
  unfolding evaluate apply
  evaluate-IsGate active g v =
      ground
        (arith, v.remembered, v.same_suffixes, v.gate_on, v.dormant, gate_params-enabled g.config)

  pub reconfigure-IsGate :
      (config : Config) (active : List Str) (g : GateInner R)
      → IsGate (reconfigure direct rebuild config active g)
        × ((reconfigure direct rebuild config active g).live ≡ wanted config active)
        × ((reconfigure direct rebuild config active g).config ≡ config)
  unfolding reconfigure evaluate apply
  reconfigure-IsGate config active g = ground (arith, gate_params-enabled config)
