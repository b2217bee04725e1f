-- ===== src/App/PacRouter/Unavailable.antt =====
-- Requests while the PAC backend is not available.
use zicade_rs.Prelude.{ℕ, ◌≡◌, refl, Bool-cases, inl, inr, some, [], ◌++◌, Result, err}
use zicade_rs.Text.{Str, text}
use zicade_rs.Config.Model.{FailPolicy, PacConfig}
use zicade_rs.Auth.Header.{Base64}
use zicade_rs.Routing.Resolver.{backend, describe_routing_error}
use zicade_rs.App.PacRouter.{
  Router, RouteChoice, route, resolve, cached, lookup, resolve_via_thread, to_route_choice,
  answered,
}
use zicade_rs.App.PacRouter.Resolver.{reply_of}
use zicade_rs.Proxy.Forward.{Parts}
use zicade_rs.Proxy.Service.{
  Outside, Routing, Uri, own, bad_gateway, proxy_service, serve_target, authority_target,
  forward_tracked, forward_pac, handle_connect_pac, is_connect,
}

module _ (b : Base64) (msg : Str) where
  -- The router of a snapshot whose backend could not be built.
  abbrev pub broken_router : Router → ℕ → ℕ → Str → Result Str RouteChoice
  broken_router r now later url = (route b now later (answered (reply_of (err msg) url)) url r).0

  abbrev refusal : Str
  refusal = text "PAC resolution failed: " ++ describe_routing_error (backend msg)

  broken_router-err :
      (r : Router) (p : PacConfig) (now later : ℕ) (url : Str)
      → r.routing.pac ≡ some p
      → p.fail_policy ≡ FailPolicy.error
      → r.cache.entries ≡ []
      → broken_router r now later url ≡ err refusal
  unfolding route resolve cached lookup resolve_via_thread to_route_choice
  broken_router-err r p now later url pac policy empty = rw (empty, pac, policy) refl

  module _ (out : Outside) (router : Str → Result Str RouteChoice) (parts : Parts Uri) where
    refused_http :
        router parts.uri.shown ≡ err refusal
        → (forward_tracked out (Routing.pac router) parts).0 ≡ own bad_gateway
    unfolding forward_tracked forward_pac
    refused_http e = rw e refl

    refused_connect :
        (target : Str)
        → router (text "https://" ++ target) ≡ err refusal
        → (handle_connect_pac out router target).0 ≡ own bad_gateway
    unfolding handle_connect_pac
    refused_connect target e = rw e refl

    refused_target :
        (target : Str)
        → ((url : Str) → router url ≡ err refusal)
        → (serve_target out (Routing.pac router) parts (some target)).answer ≡ own bad_gateway
    refused_target target fails = elim (Bool-cases (is_connect parts.method)) [
      | inl c ↦ rw c (refused_connect target (fails (text "https://" ++ target)))
      | inr c ↦ rw c (refused_http (fails parts.uri.shown))
    ]

  -- While the PAC backend cannot be built, nothing is cached and the policy is to refuse, every
  -- request that names a target gets a 502 of the proxy's own.
  pub proxy_service-bad_gateway :
      (out : Outside) (r : Router) (p : PacConfig) (now later : ℕ) (parts : Parts Uri)
      (target : Str)
      → r.routing.pac ≡ some p
      → p.fail_policy ≡ FailPolicy.error
      → r.cache.entries ≡ []
      → authority_target parts.uri ≡ some target
      → (proxy_service out (Routing.pac (broken_router r now later)) parts).answer ≡ own bad_gateway
  unfolding proxy_service
  proxy_service-bad_gateway out r p now later parts target pac policy empty found = rw found (
      refused_target out (broken_router r now later) parts target
        (λ url. broken_router-err r p now later url pac policy empty))
