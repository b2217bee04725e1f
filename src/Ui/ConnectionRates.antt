-- ===== src/Ui/ConnectionRates.antt =====
-- crates/zicade-ui/src/connection_rates.rs: the live rates of the connections, from one snapshot of the
-- tracker to the next. The maps are association lists; `per_second n d` is the floating-point rate of
-- `n` bytes over `d` nanoseconds, and a time is in nanoseconds.
pub mod Forgotten
use zicade_rs.Prelude.{
  ℕ, ◌-◌, ◌==◌, Option, none, some, List, [], ◌∷◌, length, filter, not, if◌then◌else◌,
}
use zicade_rs.Proxy.Tracker.{ConnectionSnapshot}

abbrev pub Seen : Type 0
Seen = ℕ × ℕ × ℕ

pub record ConnectionRates (F : Type 0) : Type 0 where
  pub last : List (ℕ × Seen)
  pub rates : List (ℕ × (F × F))

unfoldable pub lookup : {A : Type 0} → ℕ → List (ℕ × A) → Option A
lookup id [] = none
lookup id (e ∷ es) = let rest = lookup id es in if e.0 == id then some e.1 else rest

-- The key's old entry is replaced.
unfoldable pub insert : {A : Type 0} → ℕ × A → List (ℕ × A) → List (ℕ × A)
insert e es = e ∷ filter (λ old. not (old.0 == e.0)) es

abbrev pub nothing : {F : Type 0} → ConnectionRates F
nothing = record { last = []; rates = [] }

module _ {F : Type 0} (per_second : ℕ → ℕ → F) where
  -- A connection's rate: from the counters that were seen last if time has passed, or the one it had.
  abbrev pub rate_from : Option Seen → Option (F × F) → ConnectionSnapshot → ℕ → Option (F × F)
  rate_from none kept c at = none
  rate_from (some (up, down, before)) kept c at =
      if at - before == 0
      then kept
      else some (
        per_second (c.bytes_up - up) (at - before),
        per_second (c.bytes_down - down) (at - before),
      )

  abbrev pub with_rate : ℕ → Option (F × F) → List (ℕ × (F × F)) → List (ℕ × (F × F))
  with_rate id none rates = rates
  with_rate id (some rate) rates = insert (id, rate) rates

  -- The loop, with the two new maps as they were filled so far.
  unfoldable pub collect :
      ConnectionRates F → List ConnectionSnapshot → ℕ → ConnectionRates F → ConnectionRates F
  unfolding lookup insert
  collect old [] at new = new
  collect old (c ∷ cs) at new = collect old cs at (record {
    last = insert (c.id, (c.bytes_up, c.bytes_down, at)) new.last;
    rates =
        with_rate c.id (rate_from (lookup c.id old.last) (lookup c.id old.rates) c at) new.rates;
  })

  unfoldable pub update : List ConnectionSnapshot → ℕ → ConnectionRates F → ConnectionRates F
  unfolding collect
  update connections at old = collect old connections at nothing

unfoldable pub rate : {F : Type 0} → ℕ → ConnectionRates F → Option (F × F)
unfolding lookup
rate id r = lookup id r.rates

unfoldable pub tracked : {F : Type 0} → ConnectionRates F → ℕ
tracked r = length r.last
