-- ===== src/App/OnCorp/Below.antt =====
-- What a match of DNS suffixes means.
use zicade_rs.Prelude.{◌∷◌, ◌++◌, ◌≡◌, ◌⊎◌}
use zicade_rs.Text.{Str}

-- `a` is the domain `c`, or a domain under it.
abbrev pub IsBelow : Str → Str → Type 0
IsBelow a c = (a ≡ c) ⊎ ((above : Str) × (a ≡ above ++ (b'.' ∷ c)))
