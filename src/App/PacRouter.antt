-- ===== src/App/PacRouter.antt =====
-- apps/zicade/src/pac_router.rs: the PAC router of one routing snapshot. The resolver thread's
-- answer is an argument of a request, and so are the clock's readings before and after it, in
-- nanoseconds. The cache's lock is never poisoned: no code that holds it can panic.
pub mod Cache
pub mod Policy
pub mod Resolver
pub mod Unavailable
use zicade_rs.Prelude.{
  ◌-◌, ◌>>=◌, leb, ltb, and_then, if◌then◌else◌, map_option, not, ok_or, map_err, ℕ, Bool, true,
  false, Option, none, some, [], ◌∷◌, ◌++◌, List, Result, ok, err, length, filter,
}
use zicade_rs.Text.{Str, text, decimal, str_eq}
use zicade_rs.Config.Model.{
  pac_upstream, RoutingConfig, FailPolicy, PacConfig, UpstreamConfig, PacSource,
}
use zicade_rs.Auth.Header.{Base64}
use zicade_rs.Proxy.Pool.{seconds, PoolConfig}
use zicade_rs.Proxy.Pool.Registry.{new_pools, PoolHandle, UpstreamPools, get}
use zicade_rs.Routing.Pac.{PacResult}
use zicade_rs.Routing.Resolver.{RoutingError, backend, describe_routing_error}
use zicade_rs.App.Route.{pool_config, UpstreamTarget, UpstreamAuth, build_auth}

abbrev pub resolve_timeout_seconds : ℕ
resolve_timeout_seconds = 5

abbrev pub cache_ttl : ℕ
cache_ttl = seconds 300

abbrev pub cache_max_entries : ℕ
cache_max_entries = 4096

-- How the round trip to the resolver thread ends.
pub data ThreadReply : Type 0 where
  stopped dropped timed_out : ThreadReply
  answered : Result RoutingError PacResult → ThreadReply

unfoldable pub resolve_via_thread : ThreadReply → Result RoutingError PacResult
resolve_via_thread stopped = err (backend (text "PAC resolver thread stopped"))
resolve_via_thread dropped = err (backend (text "PAC resolver dropped the request"))
resolve_via_thread (answered r) = r
resolve_via_thread timed_out = err (
    backend (
      text "PAC resolution timed out after "
      ++ (decimal resolve_timeout_seconds ++ text "s (resolver busy or WinHTTP call wedged)")))

pub record Stored : Type 0 where
  pub url : Str
  pub stored_at : ℕ
  pub decision : PacResult

pub record PacCache : Type 0 where
  pub ttl : ℕ
  pub entries : List Stored

abbrev pub new_cache : ℕ → PacCache
new_cache ttl = record { ttl = ttl; entries = [] }

unfoldable pub lookup : Str → List Stored → Option Stored
lookup url [] = none
lookup url (e ∷ es) = let further = lookup url es in if str_eq e.url url then some e else further

abbrev pub unexpired : ℕ → ℕ → Stored → Option PacResult
unexpired now ttl e = if ltb (now - e.stored_at) ttl then some e.decision else none

unfoldable pub cached : ℕ → Str → PacCache → Option PacResult
cached now url c = and_then (lookup url c.entries) (unexpired now c.ttl)

-- The map's `insert`: the key's old entry is replaced.
unfoldable pub insert : Stored → List Stored → List Stored
insert e es = e ∷ filter (λ old. not (str_eq old.url e.url)) es

unfoldable pub put : ℕ → Str → PacResult → PacCache → PacCache
put now url decision c =
    let e : Stored = record { url = url; stored_at = now; decision = decision } in
    record c {
      entries = insert e (if leb cache_max_entries (length c.entries) then [] else c.entries);
    }

-- Which URL the WinHTTP backend fetches its PAC from, none for the system's own settings.
unfoldable pub backend_source :
    (Str → Str) → PacSource → Option Str → Option Str → Result Str (Option Str)
backend_source file_url PacSource.auto url path = ok none
backend_source file_url PacSource.url none path =
    err (text "routing.pac.url is required for source = \"url\"")
backend_source file_url PacSource.url (some url) path = ok (some url)
backend_source file_url PacSource.file url none =
    err (text "routing.pac.path is required for source = \"file\"")
backend_source file_url PacSource.file url (some path) = ok (some (file_url path))

pub data RouteChoice : Type 0 where
  direct : RouteChoice
  upstream : UpstreamTarget → RouteChoice

abbrev pub fail_policy_of : Option PacConfig → FailPolicy
fail_policy_of none = FailPolicy.error
fail_policy_of (some p) = p.fail_policy

abbrev pub failed_choice : FailPolicy → RoutingError → Result Str RouteChoice
failed_choice FailPolicy.direct e = ok direct
failed_choice FailPolicy.error e = err (text "PAC resolution failed: " ++ describe_routing_error e)

module _ (b : Base64) where
  -- `format!("{host}:{port}")` with the auth for that host.
  abbrev pub target_of : Str → ℕ → UpstreamConfig → UpstreamTarget
  target_of host port up = record {
    addr = host ++ (text ":" ++ decimal port);
    auth = build_auth b up.auth host;
    pool = none;
  }

  unfoldable pub to_route_choice :
      Result RoutingError PacResult → RoutingConfig → Result Str RouteChoice
  to_route_choice (ok PacResult.direct) routing = ok direct
  to_route_choice (ok (PacResult.proxy host port)) routing =
      ok_or (pac_upstream routing host port)
        (text "PAC selected a proxy but no [routing.pac] config is present")
      >>= λ up. ok (upstream (target_of host port up))
  to_route_choice (err e) routing = failed_choice (fail_policy_of routing.pac) e

-- The snapshot's pool for the target's address.
unfoldable pub with_pool : RouteChoice → Option UpstreamPools → RouteChoice × Option UpstreamPools
with_pool (upstream target) (some pools) =
    let (pool, pools') = get pools target.addr in
    (upstream (record target { pool = pool }), some pools')
with_pool choice pools = (choice, pools)

-- What the closure of `build_pac` owns.
pub record Router : Type 0 where
  pub routing : RoutingConfig
  pub cache : PacCache
  pub pools : Option UpstreamPools

-- `thread` is what the start of the resolver thread comes to.
unfoldable pub build_pac : Result Str (Unit {0}) → RoutingConfig → Result Str Router
build_pac thread routing =
    ok_or routing.pac (text "routing.mode = pac requires a [routing.pac] section") >>= λ p.
    map_err (λ why. text "start the PAC resolver thread: " ++ why) thread >>= λ u. ok (record {
      routing = routing;
      cache = new_cache cache_ttl;
      pools = map_option new_pools (pool_config routing.pool);
    })

-- Only an `Ok` is cached.
abbrev pub remember : ℕ → Str → Result RoutingError PacResult → PacCache → PacCache
remember now url (ok decision) c = put now url decision c
remember now url (err e) c = c

-- The decision of the cache, or of the resolver thread, and the cache afterwards.
unfoldable pub resolve :
    ℕ → ℕ → ThreadReply → Str → PacCache → Result RoutingError PacResult × PacCache
resolve now later reply url c = elim (cached now url c) [
  | some decision ↦ (ok decision, c)
  | none ↦ (resolve_via_thread reply, remember later url (resolve_via_thread reply) c)
]

abbrev pub pooled : Result Str RouteChoice → Router → Result Str RouteChoice × Router
pooled (err e) r = (err e, r)
pooled (ok choice) r =
    let (choice', pools) = with_pool choice r.pools in (ok choice', record r { pools = pools })

unfoldable pub route : Base64 → ℕ → ℕ → ThreadReply → Str → Router → Result Str RouteChoice × Router
route b now later reply url r =
    let (resolved, cache) = resolve now later reply url r.cache in
    pooled (to_route_choice b resolved r.routing) (record r { cache = cache })
