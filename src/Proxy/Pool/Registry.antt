-- ===== src/Proxy/Pool/Registry.antt =====
-- crates/zicade-proxy/src/upstream/pool.rs: the pools of one routing snapshot. A pool's handle is an
-- `Arc`; its identity is the number of pools created before it.
use zicade_rs.Prelude.{
  inr, inl, Option-cases, ◌≢◌, arith, ◌<◌, ◌≡◌, ◌≤◌, ℕ, ◌+◌, Option, none, some, List, [], ◌∷◌, leb,
  if◌then◌else◌, length,
}
use zicade_rs.Text.{str_eq_iff, Str, str_eq}
use zicade_rs.Proxy.Pool.{PoolConfig}

pub record PoolHandle : Type 0 where
  pub serial : ℕ
  pub addr : Str
  pub config : PoolConfig

pub record UpstreamPools : Type 0 where
  pub config : PoolConfig
  pub pools : List (Str × PoolHandle)
  pub created : ℕ

abbrev pub max_upstreams : ℕ
max_upstreams = 8

unfoldable pub new_pools : PoolConfig → UpstreamPools
new_pools config = record { config = config; pools = []; created = 0 }

unfoldable pub lookup_pool : Str → List (Str × PoolHandle) → Option PoolHandle
lookup_pool addr [] = none
lookup_pool addr ((key, pool) ∷ rest) =
    let further = lookup_pool addr rest in if str_eq key addr then some pool else further

abbrev pub fresh_pool : UpstreamPools → Str → PoolHandle
fresh_pool r addr = record { serial = r.created; addr = addr; config = r.config }

abbrev pub get_missing : UpstreamPools → Str → Option PoolHandle × UpstreamPools
get_missing r addr = if leb max_upstreams (length r.pools) then (none, r) else (
  some (fresh_pool r addr),
  record r { pools = (addr, fresh_pool r addr) ∷ r.pools; created = r.created + 1 },
)

unfoldable pub get : UpstreamPools → Str → Option PoolHandle × UpstreamPools
unfolding lookup_pool
get r addr = elim (lookup_pool addr r.pools) [
  | some pool ↦ (some pool, r)
  | none ↦ get_missing r addr
]

-- At most eight pools, each under its own address and with a serial below the next one, newest
-- first: no two addresses have one pool.
abbrev pub IsNumbered : ℕ → List (Str × PoolHandle) → Type 0
IsNumbered n [] = Unit {0}
IsNumbered n ((key, pool) ∷ rest) =
    (pool.serial < n) × (pool.addr ≡ key) × IsNumbered pool.serial rest

pub record IsRegistry (r : UpstreamPools) : Type 0 where
  pub few : length r.pools ≤ max_upstreams
  pub numbered : IsNumbered r.created r.pools

pub new_pools-IsRegistry : (config : PoolConfig) → IsRegistry (new_pools config)
unfolding new_pools
new_pools-IsRegistry config = record { few = omega arith; numbered = tt }

-- `get` keeps the registry within its cap and its pools apart.
pub get-IsRegistry : (r : UpstreamPools) (addr : Str) → IsRegistry r → IsRegistry (get r addr).1
unfolding get
get-IsRegistry r addr v = ground arith

lookup_pool_numbered :
    (n : ℕ) (addr : Str) (pools : List (Str × PoolHandle)) (pool : PoolHandle)
    → IsNumbered n pools
    → lookup_pool addr pools ≡ some pool
    → (pool.serial < n) × (pool.addr ≡ addr)
unfolding lookup_pool
lookup_pool_numbered n addr [] pool v e = cc
lookup_pool_numbered n addr ((key, h) ∷ rest) pool v e =
    ground (arith, str_eq_iff key addr, lookup_pool_numbered h.serial addr rest pool v.2)

-- The pool that an address got is found again for it, and is made for that address; what is found
-- for any other address stays as it was.
pub get-get :
    (r : UpstreamPools) (addr other : Str) {pool : PoolHandle}
    → IsRegistry r
    → (get r addr).0 ≡ some pool
    → addr ≢ other
    → ((get (get r addr).1 addr).0 ≡ some pool)
      × (pool.addr ≡ addr)
      × (lookup_pool other (get r addr).1.pools ≡ lookup_pool other r.pools)
unfolding get
get-get r addr other {pool} v e apart = elim (Option-cases (lookup_pool addr r.pools)) [
  | inl new ↦ ground (arith, str_eq_iff addr other, str_eq_iff addr addr)
  | inr (old, found) ↦
      ground (arith, lookup_pool_numbered r.created addr r.pools old v.numbered found)
]
