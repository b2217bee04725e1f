-- ===== src/Control/Apply.antt =====
-- What applying an edit changes, and what it never changes.
use zicade_rs.Prelude.{sym, subst, Option, [], ◌∷◌, List, Result, ok, err, ◌≡◌, refl, ap, ◌∙◌}
use zicade_rs.Config.Model.{Config}
use zicade_rs.Config.Secrets.{keep_secrets_from, without_secrets}
use zicade_rs.Config.Secrets.Redaction.{OnSlots, StoresForBasic, keep_secrets_from-without_secrets}
use zicade_rs.Config.Validate.{validate, ValidationCtx, ConfigError}
use zicade_rs.Config.Validate.Valid.{IsValid, validate_iff}
use zicade_rs.Control.{
  Control, apply, apply_all, after_validation, after_save, config_redacted, run_hook,
  routing_mode_label, ControlError,
}

module _ {D L : Type 0} (ctx : ValidationCtx)
    (save_file : Config → D → Result ConfigError (Unit {0}) × D)
    (hook : Option (Config → L → L)) where
  -- A failed edit leaves everything but the disk as it was; one that succeeds was valid and saved, and
  -- it is current, live through the hook, and named in the status.
  abbrev pub Applies : Config → Control D L → Result ControlError (Unit {0}) × Control D L → Type 0
  Applies config c (err e, d) =
      (d.config ≡ c.config) × (d.live ≡ c.live) × (d.stored_status ≡ c.stored_status)
  Applies config c (ok u, d) =
      IsValid ctx config
      × ((save_file config c.disk).0 ≡ ok tt)
      × (d.config ≡ config)
      × (d.live ≡ run_hook hook config c.live)
      × (d.stored_status.routing_mode ≡ routing_mode_label config.routing.mode)

  after_save-Applies :
      (config : Config) (c : Control D L) (saved : Result ConfigError (Unit {0}) × D)
      → IsValid ctx config
      → save_file config c.disk ≡ saved
      → Applies config c (after_save ctx save_file hook config c saved)
  after_save-Applies config c (err e, disk) v h = (refl, refl, refl)
  after_save-Applies config c (ok u, disk) v h = (v, ap (λ s. s.0) h, refl, refl, refl)

  after_validation-Applies :
      (config : Config) (c : Control D L) (checked : Result ConfigError (Unit {0}))
      → validate config ctx ≡ checked
      → Applies config c (after_validation ctx save_file hook checked config c)
  after_validation-Applies config c (err e) h = (refl, refl, refl)
  after_validation-Applies config c (ok u) h =
      after_save-Applies config c (save_file config c.disk) ((validate_iff config ctx).0 h) refl

  -- An edit takes the passwords that it left out from the current configuration. If it then is
  -- invalid, or is not saved, configuration, live state and status stay as they were; otherwise it is
  -- valid and saved, it is the current configuration, the hook ran on it once, and the status names
  -- its mode.
  pub apply-Applies :
      (edited : Config) (c : Control D L)
      → Applies (keep_secrets_from edited c.config) c (apply ctx save_file hook edited c)
  unfolding apply
  apply-Applies edited c =
      let config = keep_secrets_from edited c.config in
      after_validation-Applies config c (validate config ctx) refl

  Applies-IsValid :
      (config : Config) (c : Control D L) (r : Result ControlError (Unit {0}) × Control D L)
      → Applies config c r
      → IsValid ctx c.config
      → IsValid ctx r.1.config
  Applies-IsValid config c (err e, d) a v = subst (IsValid ctx) (sym a.0) v
  Applies-IsValid config c (ok u, d) a v = subst (IsValid ctx) (sym a.2) a.0

  -- Whatever edits are applied, and whichever saves fail, the current configuration stays valid.
  pub apply_all-IsValid :
      (edits : List Config) (c : Control D L)
      → IsValid ctx c.config
      → IsValid ctx (apply_all ctx save_file hook edits c).config
  unfolding apply_all
  apply_all-IsValid [] c v = v
  apply_all-IsValid (edited ∷ rest) c v =
      apply_all-IsValid rest (apply ctx save_file hook edited c).1 (
        Applies-IsValid (keep_secrets_from edited c.config) c (apply ctx save_file hook edited c)
          (apply-Applies edited c) v)

  Applies-same :
      (config : Config) (c : Control D L) (r : Result ControlError (Unit {0}) × Control D L)
      → Applies config c r
      → config ≡ c.config
      → r.1.config ≡ c.config
  Applies-same config c (err e, d) a h = a.0
  Applies-same config c (ok u, d) a h = a.2 ∙ h

  -- Applying what the UI was shown, unedited, keeps the configuration with its passwords, where
  -- passwords are stored only in Basic slots.
  pub apply-config_redacted :
      (c : Control D L)
      → OnSlots StoresForBasic c.config
      → (apply ctx save_file hook (config_redacted c) c).1.config ≡ c.config
  unfolding config_redacted
  apply-config_redacted c h =
      Applies-same (keep_secrets_from (without_secrets c.config) c.config) c
        (apply ctx save_file hook (without_secrets c.config) c)
        (apply-Applies (without_secrets c.config) c) (keep_secrets_from-without_secrets c.config h)
