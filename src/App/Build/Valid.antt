-- ===== src/App/Build/Valid.antt =====
-- A valid configuration has a routing.
use zicade_rs.Prelude.{
  Result-cases, none, Option-cases, ok, err, Result, ◌≡◌, ◌≢◌, inl, inr, refl, arith,
}
use zicade_rs.Text.{Str}
use zicade_rs.Auth.Header.{Base64}
use zicade_rs.Config.Model.{Config, RoutingMode, RoutingConfig}
use zicade_rs.Config.Validate.{ValidationCtx}
use zicade_rs.Config.Validate.Valid.{IsValid}
use zicade_rs.App.PacRouter.{build_pac}
use zicade_rs.App.Build.{upstream_target, Routing, build_routing, build_for_mode, build_upstream}

-- The routing is of the mode's kind.
abbrev pub IsOfMode : RoutingMode → Routing → Type 0
IsOfMode RoutingMode.direct Routing.direct = Unit {0}
IsOfMode RoutingMode.upstream (Routing.upstream target) = Unit {0}
IsOfMode RoutingMode.pac (Routing.pac router) = Unit {0}
IsOfMode _ _ = ⊥

module _ (b : Base64) where
  no_section :
      (routing : RoutingConfig) {why : Str}
      → build_pac (ok tt) routing ≡ err why
      → routing.pac ≡ none
  unfolding build_pac
  no_section routing e = ground arith

  build_mode :
      (thread : Result Str (Unit {0})) (mode : RoutingMode) (routing : RoutingConfig)
      → (mode ≡ RoutingMode.upstream → routing.upstream ≢ none)
      → (mode ≡ RoutingMode.pac → routing.pac ≢ none)
      → (mode ≡ RoutingMode.pac → thread ≡ ok tt)
      → (r : Routing) × (build_for_mode b thread mode routing ≡ ok r) × IsOfMode mode r
  unfolding build_upstream
  build_mode thread RoutingMode.direct routing h k runs = (Routing.direct, refl, tt)
  build_mode thread RoutingMode.upstream routing h k runs = elim (Option-cases routing.upstream) [
    | inl missing ↦ absurd (h refl missing)
    | inr (up, e) ↦ (Routing.upstream (upstream_target b routing up), rw e refl, tt)
  ]
  build_mode thread RoutingMode.pac routing h k runs =
      elim (Result-cases (build_pac (ok tt) routing)) [
        | inl (router, e) ↦ (Routing.pac router, rw (runs refl, e) refl, tt)
        | inr (why, e) ↦ absurd (k refl (no_section routing e))
      ]

  -- A valid configuration builds a routing of the kind of its mode, no section being missing, where the
  -- resolver thread that a PAC mode needs starts.
  pub build_routing-IsOfMode :
      (thread : Config → Result Str (Unit {0})) (ctx : ValidationCtx) (config : Config)
      → IsValid ctx config
      → (config.routing.mode ≡ RoutingMode.pac → thread config ≡ ok tt)
      → (r : Routing) × (build_routing b thread config ≡ ok r) × IsOfMode config.routing.mode r
  unfolding build_routing
  build_routing-IsOfMode thread ctx config v runs =
      build_mode (thread config) config.routing.mode config.routing v.has_upstream v.has_pac runs
