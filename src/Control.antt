-- ===== src/Control.antt =====
-- crates/zicade-control/src/control.rs and error.rs: the handle that the UI applies an edited
-- configuration through. Saving is a parameter that acts on the disk's state, and so is the apply hook,
-- which acts on the program's live state; the validation context is the host's.
pub mod Apply
use zicade_rs.Prelude.{◌∷◌, Bool, List, ℕ, Option, none, some, [], Result, ok, err}
use zicade_rs.Text.{Str, text}
use zicade_rs.Config.Model.{Config, RoutingMode}
use zicade_rs.Config.Secrets.{keep_secrets_from, without_secrets}
use zicade_rs.Config.Validate.{validate, ValidationCtx, ConfigError}

pub data ControlError : Type 0 where
  invalid : ConfigError → ControlError
  save : ConfigError → ControlError

pub record StatusSnapshot : Type 0 where
  pub routing_mode : Str
  pub listen_addr : Str
  pub requests_total : ℕ
  pub requests_failed : ℕ
  pub active_connections : ℕ
  pub bytes_in : ℕ
  pub bytes_out : ℕ
  pub on_corp : Option Bool

abbrev pub default_status : StatusSnapshot
default_status = record {
  routing_mode = [];
  listen_addr = [];
  requests_total = 0;
  requests_failed = 0;
  active_connections = 0;
  bytes_in = 0;
  bytes_out = 0;
  on_corp = none;
}

-- What a metrics source reads at one moment.
pub record MetricsSource : Type 0 where
  pub total_requests : ℕ
  pub active_connections : ℕ
  pub failed_requests : ℕ
  pub bytes_in : ℕ
  pub bytes_out : ℕ

-- The handle with the disk `D` and the live state `L` that its parts act on.
pub record Control (D L : Type 0) : Type 0 where
  pub config : Config
  pub stored_status : StatusSnapshot
  pub disk : D
  pub live : L

-- `Control::new`; the log store is the view's, and the metrics, the hook and the cell are arguments of
-- the operations that use them.
abbrev pub new_control : {D L : Type 0} → Config → D → L → Control D L
new_control config disk live = record {
  config = config;
  stored_status = default_status;
  disk = disk;
  live = live;
}

abbrev pub set_status : {D L : Type 0} → StatusSnapshot → Control D L → Control D L
set_status snapshot c = record c { stored_status = snapshot }

unfoldable pub config_redacted : {D L : Type 0} → Control D L → Config
config_redacted c = without_secrets c.config

abbrev pub overlay_metrics : Option MetricsSource → StatusSnapshot → StatusSnapshot
overlay_metrics none s = s
overlay_metrics (some m) s = record s {
  requests_total = m.total_requests;
  requests_failed = m.failed_requests;
  active_connections = m.active_connections;
  bytes_in = m.bytes_in;
  bytes_out = m.bytes_out;
}

-- The cell's content, if a cell is attached.
abbrev pub overlay_on_corp : Option (Option Bool) → StatusSnapshot → StatusSnapshot
overlay_on_corp none s = s
overlay_on_corp (some state) s = record s { on_corp = state }

unfoldable pub status :
    {D L : Type 0} → Option MetricsSource → Option (Option Bool) → Control D L → StatusSnapshot
status metrics cell c = overlay_on_corp cell (overlay_metrics metrics c.stored_status)

unfoldable pub routing_mode_label : RoutingMode → Str
routing_mode_label RoutingMode.direct = text "direct"
routing_mode_label RoutingMode.upstream = text "upstream"
routing_mode_label RoutingMode.pac = text "pac"

abbrev pub run_hook : {L : Type 0} → Option (Config → L → L) → Config → L → L
run_hook none config live = live
run_hook (some hook) config live = hook config live

module _ {D L : Type 0} (ctx : ValidationCtx)
    (save_file : Config → D → Result ConfigError (Unit {0}) × D)
    (hook : Option (Config → L → L)) where
  -- After the save: the disk is as the save left it, whether or not it failed.
  abbrev pub after_save :
      Config
      → Control D L
      → Result ConfigError (Unit {0}) × D
      → Result ControlError (Unit {0}) × Control D L
  after_save config c (err e, disk) = (err (save e), record c { disk = disk })
  after_save config c (ok u, disk) = (
    ok tt,
    record c {
      disk = disk;
      live = run_hook hook config c.live;
      stored_status = record (c.stored_status) {
        routing_mode = routing_mode_label config.routing.mode;
      };
      config = config;
    },
  )

  abbrev pub after_validation :
      Result ConfigError (Unit {0})
      → Config
      → Control D L
      → Result ControlError (Unit {0}) × Control D L
  after_validation (err e) config c = (err (invalid e), c)
  after_validation (ok u) config c = after_save config c (save_file config c.disk)

  unfoldable pub apply : Config → Control D L → Result ControlError (Unit {0}) × Control D L
  apply edited c =
      let config = keep_secrets_from edited c.config in
      after_validation (validate config ctx) config c

  -- Edits applied one after the other, each with what it returned ignored.
  unfoldable pub apply_all : List Config → Control D L → Control D L
  apply_all [] c = c
  apply_all (edited ∷ rest) c = apply_all rest (apply edited c).1
