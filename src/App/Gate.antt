-- ===== src/App/Gate.antt =====
-- apps/zicade/src/netmon/gate.rs: the supervisor of the corporate-network gate. `detect`, the adapters'
-- DNS suffixes at the moment of a call, is an argument of the call, and `rebuild` a parameter. The state
-- holds what the shared routing handle holds and the calls of `report`.
pub mod Live
use zicade_rs.Prelude.{
  max, if◌then◌else◌, not, ℕ, Bool, true, false, some, none, Option, [], ◌∷◌, ◌++◌, List,
}
use zicade_rs.Text.{Str}
use zicade_rs.Config.Model.{Config, CorpNetworkConfig}
use zicade_rs.App.OnCorp.{on_corp}

abbrev pub corp_enabled : Option CorpNetworkConfig → Bool
corp_enabled none = false
corp_enabled (some c) = c.enabled

unfoldable pub gate_enabled : Config → Bool
gate_enabled config = corp_enabled config.routing.corp_network

pub record GateParams : Type 0 where
  pub enabled : Bool
  pub suffixes : List Str
  pub poll : ℕ

abbrev pub corp_params : Option CorpNetworkConfig → GateParams
corp_params none = record { enabled = false; suffixes = []; poll = 30 }
corp_params (some c) =
    if c.enabled
    then record { enabled = true; suffixes = c.dns_suffixes; poll = max c.poll_seconds 1 }
    else record { enabled = false; suffixes = []; poll = 30 }

unfoldable pub gate_params : Config → GateParams
gate_params config = corp_params config.routing.corp_network

-- `live` is what the shared routing handle holds, `reports` the calls of `report`, newest first.
pub record GateInner (R : Type 0) : Type 0 where
  pub live : R
  pub enabled : Bool
  pub suffixes : List Str
  pub poll : ℕ
  pub config : Config
  pub last : Option Bool
  pub reports : List (Option Bool)

-- `self.last == Some(corp)`.
abbrev pub is_last : Option Bool → Bool → Bool
is_last none corp = false
is_last (some true) corp = corp
is_last (some false) corp = not corp

-- A call under the lock: `evaluate` from the monitor thread or from `evaluate_now`, or
-- `reconfigure` from the configuration hook; each with the adapters' suffixes at that moment.
pub data Call : Type 0 where
  look : List Str → Call
  configure : Config → List Str → Call

module _ {R : Type 0} (direct : R) (rebuild : Config → R) where
  unfoldable pub apply : Bool → GateInner R → GateInner R
  apply corp g = record g {
    live = if corp then rebuild g.config else direct;
    reports = some corp ∷ g.reports;
  }

  unfoldable pub evaluate : List Str → GateInner R → GateInner R
  unfolding apply
  evaluate active g =
      if not g.enabled
      then g
      else (if is_last g.last (on_corp active g.suffixes)
          then g
          else record (apply (on_corp active g.suffixes) g) {
            last = some (on_corp active g.suffixes);
          })

  abbrev pub adopt : GateParams → Config → GateInner R → GateInner R
  adopt params config g = record g {
    enabled = params.enabled;
    suffixes = params.suffixes;
    poll = params.poll;
    config = config;
    last = none;
  }

  unfoldable pub reconfigure : Config → List Str → GateInner R → GateInner R
  reconfigure config active g =
      let h = adopt (gate_params config) config g in
      if h.enabled
      then evaluate active h
      else record h { live = rebuild h.config; reports = none ∷ h.reports }

  -- `NetworkGate::new`, on a routing handle that holds `live`.
  unfoldable pub new : R → Config → GateInner R
  new live config =
      let params = gate_params config in
      record {
        live = live;
        enabled = params.enabled;
        suffixes = params.suffixes;
        poll = params.poll;
        config = config;
        last = none;
        reports = [];
      }

  unfoldable pub call : Call → GateInner R → GateInner R
  call (look active) g = evaluate active g
  call (configure config active) g = reconfigure config active g

  unfoldable pub run : List Call → GateInner R → GateInner R
  run [] g = g
  run (c ∷ cs) g = run cs (call c g)
