-- ===== src/Ui/Form/Save.antt =====
-- crates/zicade-ui/src/views/config/mod.rs: how the view saves the form through the control.
use zicade_rs.Prelude.{
  subst, sym, ap, not, ◌||◌, if◌then◌else◌, Bool, true, false, Option, none, some, Result, ok, err,
  ◌≡◌, ◌∙◌, refl,
}
use zicade_rs.Config.Model.{Config}
use zicade_rs.Config.Validate.{ValidationCtx, ConfigError}
use zicade_rs.Config.Secrets.{keep_secrets_from}
use zicade_rs.Control.{Control, ControlError, apply, config_redacted}
use zicade_rs.Control.Apply.{apply-Applies, Applies}
use zicade_rs.Ui.Form.{ConfigForm, FormError, from_config, to_config}
use zicade_rs.Ui.Form.Tidy.{IsTidyConfig, kept}
use zicade_rs.Ui.Form.RoundTrip.{to_config-from_config}

pub data Outcome : Type 0 where
  saved : Outcome
  unreadable : FormError → Outcome
  refused : ControlError → Outcome

-- The view: the control that it edits, what is typed, what the proxy runs with, whether a save is under
-- way, and what came of the last one.
pub record ConfigView (D L : Type 0) : Type 0 where
  pub control : Control D L
  pub fields : ConfigForm
  pub shown : ConfigForm
  pub saving : Bool
  pub outcome : Option Outcome

unfoldable pub new_view : {D L : Type 0} → Control D L → ConfigView D L
new_view c = record {
  control = c;
  fields = from_config (config_redacted c);
  shown = from_config (config_redacted c);
  saving = false;
  outcome = none;
}

unfoldable pub reload : {D L : Type 0} → ConfigView D L → ConfigView D L
reload v = record v {
  fields = from_config (config_redacted v.control);
  shown = from_config (config_redacted v.control);
  outcome = none;
}

abbrev begin :
    {D L : Type 0} → Result FormError Config → ConfigView D L → Option Config × ConfigView D L
begin (err e) v = (none, record v { outcome = some (unreadable e) })
begin (ok config) v = (some config, record v { saving = true; outcome = none })

-- `save`, up to the configuration that it gives the control; `changed` is what `has_changes` found.
unfoldable pub save : {D L : Type 0} → Bool → ConfigView D L → Option Config × ConfigView D L
save changed v = if v.saving || not changed then (none, v) else begin (to_config v.fields) v

-- What follows when the control has answered.
unfoldable pub finish :
    {D L : Type 0} → Result ControlError (Unit {0}) × Control D L → ConfigView D L → ConfigView D L
unfolding reload
finish (ok u, c) v = record (reload (record v { control = c; saving = false })) {
  outcome = some saved;
}
finish (err e, c) v = record v { control = c; saving = false; outcome = some (refused e) }

abbrev pub outcome_of : Result ControlError (Unit {0}) → Outcome
outcome_of (ok u) = saved
outcome_of (err e) = refused e

module _ {D L : Type 0} (ctx : ValidationCtx)
    (save_file : Config → D → Result ConfigError (Unit {0}) × D)
    (hook : Option (Config → L → L)) where
  abbrev pub answered : Option Config × ConfigView D L → ConfigView D L
  answered (none, v) = v
  answered (some config, v) = finish (apply ctx save_file hook config v.control) v

  -- A whole save: its beginning, the control's `apply`, and its end.
  unfoldable pub save_form : Bool → ConfigView D L → ConfigView D L
  save_form changed v = answered (save changed v)

  finish-kept :
      (r : Result ControlError (Unit {0}) × Control D L) (v : ConfigView D L)
      → ((finish r v).control ≡ r.1)
        × ((finish r v).outcome ≡ some (outcome_of r.0))
        × ((finish r v).saving ≡ false)
  unfolding finish reload
  finish-kept (ok u, c) v = (refl, refl, refl)
  finish-kept (err e, c) v = (refl, refl, refl)

  save_form_lem :
      (edited : Config) (v : ConfigView D L)
      → v.fields ≡ from_config edited
      → IsTidyConfig edited
      → kept edited ≡ edited
      → v.saving ≡ false
      → save_form true v
        ≡ finish
            (apply ctx save_file hook edited v.control)
            (record v { saving = true; outcome = none })
  unfolding save_form save
  save_form_lem edited v typed tidy own idle =
      ap (λ b. answered (if b || false then (none, v) else begin (to_config v.fields) v)) idle
      ∙ ap (λ r. answered (begin r v))
          (ap to_config typed ∙ to_config-from_config edited tidy ∙ ap ok own)

  -- Saving a changed form that reads as the tidy configuration `edited` ends, with the control's own
  -- outcome: an edit that is invalid or not saved changes nothing of the control and is reported, and one
  -- that succeeds has become the configuration, with the passwords that the form left blank; `edited` has
  -- no section that its mode does not use, and no other save is under way.
  pub save_form-Applies :
      (edited : Config) (v : ConfigView D L)
      → v.fields ≡ from_config edited
      → IsTidyConfig edited
      → kept edited ≡ edited
      → v.saving ≡ false
      → (r : Result ControlError (Unit {0})) × Applies ctx save_file hook
          (keep_secrets_from edited v.control.config)
          v.control
          (r, (save_form true v).control)
        × ((save_form true v).outcome ≡ some (outcome_of r))
        × ((save_form true v).saving ≡ false)
  unfolding save_form save
  save_form-Applies edited v typed tidy own idle =
      let r = apply ctx save_file hook edited v.control in
      let under_way = record v { saving = true; outcome = none } in
      let done = finish-kept r under_way in
      let run = save_form_lem edited v typed tidy own idle in
      (
        r.0,
        subst
            (λ c.
              Applies ctx save_file hook (keep_secrets_from edited v.control.config) v.control
                (r.0, c))
            (sym (ap (λ w. w.control) run ∙ done.0))
            (apply-Applies ctx save_file hook edited v.control),
        ap (λ w. w.outcome) run ∙ done.1,
        ap (λ w. w.saving) run ∙ done.2,
      )
