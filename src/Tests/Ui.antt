-- ===== src/Tests/Ui.antt =====
-- A form that is saved, and a log view that replays a backlog.
use zicade_rs.Prelude.{
  true, ℕ, ◌+◌, ◌++◌, ◌≡◌, none, some, [], ◌∷◌, ok, Result, arith, refl, false, drop, length,
}
use zicade_rs.Text.{text, trim}
use zicade_rs.Config.Model.{
  Config, RoutingMode, AuthMode, default_config, default_routing, default_auth,
}
use zicade_rs.Config.Secrets.{keep_secrets_from}
use zicade_rs.Config.Validate.{ConfigError, ValidationCtx}
use zicade_rs.Control.{Control, ControlError, default_status}
use zicade_rs.Control.Apply.{Applies}
use zicade_rs.Ui.Form.{from_config}
use zicade_rs.Ui.Form.Tidy.{IsTidyConfig}
use zicade_rs.Ui.Form.Save.{ConfigView, save_form, outcome_of, save_form-Applies}
use zicade_rs.Ui.LogBuffer.{new, push_all}
use zicade_rs.Ui.LogBuffer.Replay.{replay}
use zicade_rs.Observe.{LogStore, new_store, received, broadcast_depth}
use zicade_rs.Observe as Store

abbrev through_gw : Config
through_gw = record default_config {
  routing = record default_routing {
    mode = RoutingMode.upstream;
    upstream = some (record {
      host = text "gw";
      port = 8080;
      auth = record default_auth { mode = AuthMode.basic; username = some (text "me") };
    });
  };
}

through_gw-IsTidyConfig : IsTidyConfig through_gw
unfolding trim
through_gw-IsTidyConfig = record {
  host = refl;
  port = omega arith;
  section = record {
    host = refl;
    port_set = omega arith;
    port = omega arith;
    auth = record { username = (cc, refl); password = tt };
  };
  gate = tt;
  level = refl;
  format = refl;
}

abbrev count_save : Config → ℕ → Result ConfigError (Unit {0}) × ℕ
count_save config saves = (ok tt, saves + 1)

abbrev no_sspi : ValidationCtx
no_sspi = record { negotiate_supported = false }

abbrev handle : Control ℕ ℕ
handle = record { config = default_config; stored_status = default_status; disk = 0; live = 0 }

abbrev typed : ConfigView ℕ ℕ
typed = record {
  control = handle;
  fields = from_config through_gw;
  shown = from_config default_config;
  saving = false;
  outcome = none;
}

save_form-Applies_example :
    (r : Result ControlError (Unit {0})) × Applies no_sspi count_save none
      (keep_secrets_from through_gw default_config)
      handle
      (r, (save_form no_sspi count_save none true typed).control)
    × ((save_form no_sspi count_save none true typed).outcome ≡ some (outcome_of r))
    × ((save_form no_sspi count_save none true typed).saving ≡ false)
save_form-Applies_example =
    save_form-Applies no_sspi count_save none through_gw typed refl through_gw-IsTidyConfig refl
      refl

replay_example :
    let subscribed : LogStore ℕ = Store.push_all (1 ∷ []) (new_store 5) in
    let read = Store.push_all (2 ∷ []) subscribed in
    let last = Store.push_all (3 ∷ []) read in
    (push_all
      (read.ring ++ received (broadcast_depth 5) (drop (length subscribed.sent) last.sent))
      (new 5)).events
    ≡ last.sent
replay_example =
    replay {E = ℕ} 5 5 (1 ∷ []) (2 ∷ []) (3 ∷ []) (omega arith) (omega arith) (omega arith)
      (omega arith)
