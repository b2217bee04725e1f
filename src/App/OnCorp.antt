-- ===== src/App/OnCorp.antt =====
-- apps/zicade/src/netmon/mod.rs: whether the machine is on the corporate network.
pub mod Below
use zicade_rs.Prelude.{
  ◌==◌, if◌then◌else◌, ◌||◌, ◌⊎◌, any, ◌≡◌, ℕ, Bool, true, false, some, none, Option, [], ◌∷◌, ◌++◌,
  List,
}
use zicade_rs.Text.{is_empty, trim, ends_with, trim_matches, str_eq, to_ascii_lowercase, Str, text}

unfoldable pub normalize : Str → Option Str
normalize s =
    let t = to_ascii_lowercase (trim_matches (λ c. c == b'.') (trim s)) in
    if is_empty t then none else some t

-- `a` is `c`, or lies below it on a dot boundary.
unfoldable pub suffix_matches : Str → Str → Bool
suffix_matches a c = str_eq a c || ends_with (b'.' ∷ c) a

unfoldable pub filter_map : {A B : Type 0} → (A → Option B) → List A → List B
filter_map f [] = []
filter_map f (x ∷ xs) = elim (f x) [ none ↦ filter_map f xs | some y ↦ y ∷ filter_map f xs ]

abbrev pub is_nil : List Str → Bool
is_nil [] = true
is_nil (x ∷ xs) = false

unfoldable pub on_corp : List Str → List Str → Bool
unfolding normalize suffix_matches filter_map any
on_corp active configured =
    let wanted = filter_map normalize configured in
    if is_nil wanted
    then false
    else any (λ a. any (suffix_matches a) wanted) (filter_map normalize active)
