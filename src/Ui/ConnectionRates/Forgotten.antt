-- ===== src/Ui/ConnectionRates/Forgotten.antt =====
-- A connection that a snapshot leaves out is forgotten.
use zicade_rs.Prelude.{
  ℕ, ◌==◌, ◌≡◌, ◌≢◌, Option, none, some, List, [], ◌∷◌, not, filter, refl, arith, All,
}
use zicade_rs.Proxy.Tracker.{ConnectionSnapshot}
use zicade_rs.Ui.ConnectionRates.{
  ConnectionRates, lookup, insert, with_rate, collect, update, rate, nothing,
}

lookup-filter :
    {A : Type 0} (id other : ℕ) (es : List (ℕ × A))
    → lookup id es ≡ none
    → lookup id (filter (λ old. not (old.0 == other)) es) ≡ none
unfolding lookup filter
lookup-filter id other [] h = refl
lookup-filter id other (e ∷ es) h = ground (arith, lookup-filter id other es)

lookup-insert :
    {A : Type 0} (id : ℕ) (e : ℕ × A) (es : List (ℕ × A))
    → e.0 ≢ id
    → lookup id es ≡ none
    → lookup id (insert e es) ≡ none
unfolding lookup insert
lookup-insert id e es ne h = ground (arith, lookup-filter id e.0 es h)

module _ {F : Type 0} (per_second : ℕ → ℕ → F) where
  lookup-with_rate :
      (id other : ℕ) (r : Option (F × F)) (rates : List (ℕ × (F × F)))
      → other ≢ id
      → lookup id rates ≡ none
      → lookup id (with_rate per_second other r rates) ≡ none
  lookup-with_rate id other none rates ne h = h
  lookup-with_rate id other (some r) rates ne h = lookup-insert id (other, r) rates ne h

  collect-forgets :
      (old : ConnectionRates F) (cs : List ConnectionSnapshot) (new : ConnectionRates F) (at id : ℕ)
      → All (λ c. c.id ≢ id) cs
      → lookup id new.last ≡ none
      → lookup id new.rates ≡ none
      → (lookup id (collect per_second old cs at new).last ≡ none)
        × (lookup id (collect per_second old cs at new).rates ≡ none)
  unfolding collect
  collect-forgets old [] new at id h last rates = (last, rates)
  collect-forgets old (c ∷ cs) new at id h last rates =
      collect-forgets old cs _ at id h.1
        (lookup-insert id (c.id, (c.bytes_up, c.bytes_down, at)) new.last h.0 last)
        (lookup-with_rate id c.id _ new.rates h.0 rates)

  -- A connection that is not in the snapshot is followed no longer and has no rate.
  update-forgets :
      (old : ConnectionRates F) (cs : List ConnectionSnapshot) (at id : ℕ)
      → All (λ c. c.id ≢ id) cs
      → (lookup id (update per_second cs at old).last ≡ none)
        × (rate id (update per_second cs at old) ≡ none)
  unfolding update rate lookup
  update-forgets old cs at id h = collect-forgets old cs nothing at id h refl refl
