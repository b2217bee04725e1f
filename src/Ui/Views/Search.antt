-- ===== src/Ui/Views/Search.antt =====
-- What a search finds.
use zicade_rs.Prelude.{◌≡◌, ◌↔◌, refl, true, Bool-cases, inl, inr, [], ◌∷◌, ◌++◌, ap, ◌∙◌, arith}
use zicade_rs.Text.{Str, starts_with, starts_with_iff}
use zicade_rs.Ui.Views.{contains_str}

-- The needle occurs somewhere in the text.
abbrev pub Occurs : Str → Str → Type 0
Occurs needle s = (before : Str) × (after : Str) × (s ≡ before ++ (needle ++ after))

occurs_here : (needle s : Str) → starts_with needle s ≡ true → contains_str needle s ≡ true
unfolding contains_str starts_with
occurs_here needle [] h = h
occurs_here needle (c ∷ s) h = rw h refl

occurs-contains_str :
    (needle before after : Str) → contains_str needle (before ++ (needle ++ after)) ≡ true
unfolding contains_str
occurs-contains_str needle [] after =
    occurs_here needle (needle ++ after)
      ((starts_with_iff needle (needle ++ after)).1 (after, refl))
occurs-contains_str needle (c ∷ before) after =
    ground (arith, occurs-contains_str needle before after)

contains_str-Occurs : (needle s : Str) → contains_str needle s ≡ true → Occurs needle s
unfolding contains_str
contains_str-Occurs needle [] h = let (rest, e) = (starts_with_iff needle []).0 h in ([], rest, e)
contains_str-Occurs needle (c ∷ s) h = elim (Bool-cases (starts_with needle (c ∷ s))) [
  | inl here ↦ let (rest, e) = (starts_with_iff needle (c ∷ s)).0 here in ([], rest, e)
  | inr later ↦
      let deeper : contains_str needle s ≡ true = ground (arith, h, later) in
      let (before, after, e) = contains_str-Occurs needle s deeper in
      (c ∷ before, after, ap (λ r. c ∷ r) e)
]

pub contains_str_iff : (needle s : Str) → (contains_str needle s ≡ true) ↔ Occurs needle s
contains_str_iff needle s = (
  contains_str-Occurs needle s,
  λ o.
      let (before, after, e) = o in
      ap (contains_str needle) e ∙ occurs-contains_str needle before after,
)
