-- ===== src/App/Start.antt =====
-- apps/zicade/src/app.rs, and `level_filter` of lib.rs: how the program starts, and how an edit that the UI
-- applies reaches the log level and the corporate-network gate. The parser of addresses and the binding
-- of the socket are parameters, and so is `thread`, what a start of the PAC resolver thread comes to for
-- each configuration. The adapters' suffixes are an argument of each look at them.
pub mod Live
use zicade_rs.Prelude.{
  ℕ, Bool, not, ◌||◌, Option, none, some, List, [], ◌∷◌, if◌then◌else◌, Result, ok, err, ◌>>=◌,
  ◌>>◌, ok_or, map_err,
}
use zicade_rs.Text.{Str, text, trim, str_eq, to_ascii_lowercase}
use zicade_rs.Auth.Header.{Base64}
use zicade_rs.Config.Model.{Config}
use zicade_rs.Config.Validate.{validate, ValidationCtx, ConfigError}
use zicade_rs.Control.{
  Control, StatusSnapshot, default_status, new_control, set_status, routing_mode_label,
  ControlError,
}
use zicade_rs.App.Build.{Routing, build_routing}
use zicade_rs.App.Gate.{GateInner, gate_enabled, new, evaluate, reconfigure}
use zicade_rs.Control as Handle

pub data LevelFilter : Type 0 where
  off error warn info debug trace : LevelFilter

abbrev pub filter_of : Str → LevelFilter
filter_of level =
    if str_eq level (text "trace")
    then trace
    else (if str_eq level (text "debug")
        then debug
        else (if str_eq level (text "info")
            then info
            else (if str_eq level (text "warn") || str_eq level (text "warning")
                then warn
                else (if str_eq level (text "error")
                    then error
                    else (if str_eq level (text "off") then off else info)))))

unfoldable pub level_filter : Str → LevelFilter
level_filter level = filter_of (to_ascii_lowercase (trim level))

-- What the running program has besides the control: the gate, with the routing that it keeps live, and
-- the level of the logs.
pub record Running : Type 0 where
  pub gate : GateInner Routing
  pub level : LevelFilter

pub data StartError : Type 0 where
  invalid : ConfigError → StartError
  not_an_address : Str → StartError
  not_bound : Str → StartError
  no_routing : Str → StartError

-- What happens to a started program: a look of the monitor, or an edit that the UI applies.
pub data Event : Type 0 where
  look : List Str → Event
  edit : Config → List Str → Event

module _ (b : Base64) (thread : Config → Result Str (Unit {0})) where
  abbrev pub or_direct : Result Str Routing → Routing
  or_direct (ok routing) = routing
  or_direct (err e) = Routing.direct

  -- The gate's `rebuild`.
  unfoldable pub rebuild : Config → Routing
  rebuild config = or_direct (build_routing b thread config)

  -- The gate, after its first look, on a handle that holds `held`.
  unfoldable pub build_gate : Config → List Str → Routing → GateInner Routing
  build_gate config active held =
      evaluate Routing.direct rebuild active (new Routing.direct rebuild held config)

  -- The apply hook, run while the adapters have the suffixes `active`.
  unfoldable pub apply_hook : List Str → Config → Running → Running
  apply_hook active config live = record {
    gate = reconfigure Routing.direct rebuild config active live.gate;
    level = level_filter config.logging.level;
  }

  -- The monitor thread's look.
  abbrev pub look_live : List Str → Running → Running
  look_live active live = record live { gate = evaluate Routing.direct rebuild active live.gate }

  -- The proxy's first routing: an enabled gate owns it, and the socket was bound with `Direct`.
  abbrev pub first_routing : Bool → Config → Result StartError Routing
  first_routing enabled config =
      if not enabled then map_err no_routing (build_routing b thread config) else ok Routing.direct

  module _ {D A : Type 0} (ctx : ValidationCtx) (parse_ip : Str → Option A)
      (bind : A → ℕ → Result Str Str) where
    abbrev pub started : Config → List Str → D → LevelFilter → Str → Routing → Control D Running
    started config active disk level local_addr held =
        set_status
          (record default_status {
            routing_mode = routing_mode_label config.routing.mode;
            listen_addr = local_addr;
          })
          (new_control config disk (record { gate = build_gate config active held; level = level }))

    unfoldable pub start :
        Config → List Str → D → LevelFilter → Result StartError (Control D Running)
    unfolding build_gate
    start config active disk level =
        map_err invalid (validate config ctx)
        >> (ok_or (parse_ip config.listen.host) (not_an_address config.listen.host) >>= λ host.
            map_err not_bound (bind host config.listen.port) >>= λ local_addr.
            first_routing (gate_enabled config) config >>= λ held.
            ok (started config active disk level local_addr held))

    module _ (save_file : Config → D → Result ConfigError (Unit {0}) × D) where
      unfoldable pub handle : Event → Control D Running → Control D Running
      unfolding apply_hook
      handle (look active) c = record c { live = look_live active c.live }
      handle (edit edited active) c =
          (Handle.apply ctx save_file (some (apply_hook active)) edited c).1

      unfoldable pub handle_all : List Event → Control D Running → Control D Running
      handle_all [] c = c
      handle_all (e ∷ es) c = handle_all es (handle e c)
