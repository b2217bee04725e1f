-- ===== src/Text/Pieces.antt =====
-- Splitting a text into pieces, and joining them.
use zicade_rs.Prelude.{
  ℕ, Bool, true, false, not, Option, none, some, List, [], ◌∷◌, ◌++◌, reverse, if◌then◌else◌,
  filter, map_option,
}
use zicade_rs.Text.Basic.{Str, is_whitespace, strip_prefix}

unfoldable pub split_step : Bool → ℕ → List Str → List Str
split_step true c rest = [] ∷ rest
split_step false c [] = (c ∷ []) ∷ []
split_step false c (w ∷ ws) = (c ∷ w) ∷ ws

-- `s.split(p)`: the pieces between the separators, empty ones included.
unfoldable pub split_on : (ℕ → Bool) → Str → List Str
unfolding split_step
split_on p [] = [] ∷ []
split_on p (c ∷ s) = split_step (p c) c (split_on p s)

unfoldable pub is_empty : Str → Bool
is_empty [] = true
is_empty (c ∷ s) = false

-- `s.split_whitespace()`: the pieces between white space, empty ones left out.
unfoldable pub split_whitespace : Str → List Str
unfolding split_on filter is_empty is_whitespace
split_whitespace s = filter (λ w. not (is_empty w)) (split_on is_whitespace s)

-- `s.split_once(p)`: around the first separator.
unfoldable pub split_once : (ℕ → Bool) → Str → Option (Str × Str)
split_once p [] = none
split_once p (c ∷ s) =
    let rest = map_option (λ (w : Str × Str). (c ∷ w.0, w.1)) (split_once p s) in
    if p c then some ([], s) else rest

-- `s.rsplit_once(p)`: around the last separator.
unfoldable pub rsplit_once : (ℕ → Bool) → Str → Option (Str × Str)
unfolding split_once
rsplit_once p s =
    map_option (λ (w : Str × Str). (reverse w.1, reverse w.0)) (split_once p (reverse s))

-- `parts.join(sep)`.
unfoldable pub join : Str → List Str → Str
join sep [] = []
join sep (w ∷ []) = w
join sep (w ∷ v ∷ ws) = w ++ (sep ++ join sep (v ∷ ws))

drop_while : (ℕ → Bool) → Str → Str
drop_while p [] = []
drop_while p (c ∷ s) = let rest = drop_while p s in if p c then rest else c ∷ s

-- `s.trim_matches(p)`.
unfoldable pub trim_matches : (ℕ → Bool) → Str → Str
unfolding drop_while
trim_matches p s = reverse (drop_while p (reverse (drop_while p s)))

abbrev or_else : Option Str → Option Str → Option Str
or_else none o = o
or_else (some s) o = some s

-- What follows the first occurrence of `p` in `s`: the second half of `s.split_once(p)`, and the rest
-- behind a hit of `s.find(p)`.
unfoldable pub after_first : Str → Str → Option Str
unfolding strip_prefix
after_first p [] = strip_prefix p []
after_first p (c ∷ s) = or_else (strip_prefix p (c ∷ s)) (after_first p s)
