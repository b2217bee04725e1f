-- ===== src/Ui/Views/Listed.antt =====
-- What the connections page lists.
use zicade_rs.Prelude.{
  ◌≡◌, ◌↔◌, refl, true, Bool, Bool-cases, inl, inr, List, [], ◌∷◌, ◌⊎◌, Any, filter, ap, ◌∙◌, sym,
  arith, ℕ,
}
use zicade_rs.Text.{Str, trim}
use zicade_rs.Proxy.Tracker.{ConnectionSnapshot}
use zicade_rs.Ui.Views.{contains_str}
use zicade_rs.Ui.Views.Search.{Occurs, contains_str_iff}
use zicade_rs.Ui.Views.Connections.{ConnectionsView, admits, found, shown, refresh}

abbrev Listed : {A : Type 0} → A → List A → Type 0
Listed {A} x xs = Any (λ y. y ≡ x) xs

Listed-filter :
    {A : Type 0} (p : A → Bool) (x : A) (xs : List A)
    → Listed x (filter p xs) ↔ (Listed x xs × (p x ≡ true))
unfolding filter
Listed-filter p x [] = (λ h. absurd h, λ h. h.0)
Listed-filter p x (y ∷ ys) =
    let rest = Listed-filter p x ys in
    elim (Bool-cases (p y)) [
      | inl kept ↦ rw kept (
        λ h. elim h [
          | inl e ↦ (inl e, sym (ap p e) ∙ kept)
          | inr l ↦ (inr (rest.0 l).0, (rest.0 l).1)
        ],
        λ h. elim h.0 [ inl e ↦ inl e | inr l ↦ inr (rest.1 (l, h.1)) ],
      )
      | inr dropped ↦ rw dropped (
        λ h. (inr (rest.0 h).0, (rest.0 h).1),
        λ h. elim h.0 [
          | inl e ↦ let yes : p y ≡ true = ap p e ∙ h.1 in cc
          | inr l ↦ rest.1 (l, h.1)
        ],
      )
    ]

-- Either there is nothing to search for, or the target or the route has it, in lower case.
abbrev IsFound : (Str → Str) → Str → ConnectionSnapshot → Type 0
IsFound lower needle c =
    (needle ≡ []) ⊎ (Occurs needle (lower c.target) ⊎ Occurs needle (lower c.route))

found_iff :
    (lower : Str → Str) (needle : Str) (c : ConnectionSnapshot)
    → (found lower needle c ≡ true) ↔ IsFound lower needle c
unfolding found
found_iff lower [] c = (λ h. inl refl, λ h. refl)
found_iff lower (x ∷ xs) c =
    let in_target = contains_str_iff (x ∷ xs) (lower c.target) in
    let in_route = contains_str_iff (x ∷ xs) (lower c.route) in
    (
      λ h. elim (Bool-cases (contains_str (x ∷ xs) (lower c.target))) [
        | inl t ↦ inr (inl (in_target.0 t))
        | inr missing ↦
            let elsewhere : contains_str (x ∷ xs) (lower c.route) ≡ true =
              ground (arith, h, missing) in
            inr (inr (in_route.0 elsewhere))
      ],
      λ h. elim h [
        | inl e ↦ cc
        | inr o ↦ elim o [
          | inl t ↦ rw (in_target.1 t) refl
          | inr r ↦
              let has : contains_str (x ∷ xs) (lower c.route) ≡ true = in_route.1 r in
              ground (arith, has)
        ]
      ],
    )

-- The connections page lists a connection exactly if the control listed it at the last refresh, the
-- chosen filter admits it, and its target or route has what is searched for, where anything is.
shown_iff :
    {F : Type 0} (per_second : ℕ → ℕ → F) (lower : Str → Str) (search : Str)
    (connections : List ConnectionSnapshot) (at : ℕ) (v : ConnectionsView F)
    (c : ConnectionSnapshot)
    → Listed c (shown lower search (refresh per_second connections at v)) ↔ (
        Listed c connections
        × (admits v.filter_by c ≡ true)
        × IsFound lower (lower (trim search)) c)
unfolding shown refresh
shown_iff per_second lower search connections at v c =
    let needle = lower (trim search) in
    let by_search =
      Listed-filter (found lower needle) c (filter (admits v.filter_by) connections) in
    let by_filter = Listed-filter (admits v.filter_by) c connections in
    let matching = found_iff lower needle c in
    (
      λ h.
          let (listed, is_found) = by_search.0 h in
          let (there, admitted) = by_filter.0 listed in (there, admitted, matching.0 is_found),
      λ h.
          let (there, admitted, is_found) = h in
          by_search.1 (by_filter.1 (there, admitted), matching.1 is_found),
    )
