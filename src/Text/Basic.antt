-- ===== src/Text/Basic.antt =====
-- Code points, trimming, ASCII case, prefixes and suffixes.
use Prim.Native.Char.{code}
use Prim.Native.String.{String}
use zicade_rs.Prelude.{
  ℕ, ◌+◌, ◌-◌, Bool, true, false, ◌&&◌, ◌||◌, Option, none, some, List, [], ◌∷◌, map, reverse, leb,
  ◌==◌, if◌then◌else◌,
}

abbrev pub Str : Type 0
Str = List ℕ

-- The code points of a literal.
abbrev pub text : String → Str
text String.[] = []
text (String.◌∷◌ c s) = code c ∷ text s

-- `char::is_whitespace`: the code points with the Unicode property White_Space.
unfoldable pub is_whitespace : ℕ → Bool
is_whitespace c =
    (leb 9 c && leb c 13)
    || (c == 32)
    || (c == 0x85)
    || (c == 0xA0)
    || (c == 0x1680)
    || (leb 0x2000 c && leb c 0x200A)
    || (c == 0x2028)
    || (c == 0x2029)
    || (c == 0x202F)
    || (c == 0x205F)
    || (c == 0x3000)

unfoldable pub trim_start : Str → Str
unfolding is_whitespace
trim_start [] = []
trim_start (c ∷ s) = let rest = trim_start s in if is_whitespace c then rest else c ∷ s

unfoldable pub trim_end : Str → Str
unfolding trim_start
trim_end s = reverse (trim_start (reverse s))

unfoldable pub trim : Str → Str
unfolding trim_end
trim s = trim_end (trim_start s)

unfoldable pub str_eq : Str → Str → Bool
str_eq [] [] = true
str_eq (a ∷ s) (b ∷ t) = (a == b) && str_eq s t
str_eq _ _ = false

unfoldable pub lower : ℕ → ℕ
lower c = if leb b'A' c && leb c b'Z' then c + 32 else c

unfoldable pub upper : ℕ → ℕ
upper c = if leb b'a' c && leb c b'z' then c - 32 else c

unfoldable pub to_ascii_lowercase : Str → Str
unfolding lower
to_ascii_lowercase s = map lower s

unfoldable pub to_ascii_uppercase : Str → Str
unfolding upper
to_ascii_uppercase s = map upper s

unfoldable pub eq_ignore_ascii_case : Str → Str → Bool
unfolding str_eq to_ascii_lowercase
eq_ignore_ascii_case s t = str_eq (to_ascii_lowercase s) (to_ascii_lowercase t)

-- `s.strip_prefix(p)`: what follows the prefix `p` of `s`.
unfoldable pub strip_prefix : Str → Str → Option Str
strip_prefix [] s = some s
strip_prefix (a ∷ p) [] = none
strip_prefix (a ∷ p) (b ∷ s) = let rest = strip_prefix p s in if a == b then rest else none

-- `s.starts_with(p)`.
unfoldable pub starts_with : Str → Str → Bool
starts_with [] s = true
starts_with (a ∷ p) [] = false
starts_with (a ∷ p) (b ∷ s) = (a == b) && starts_with p s

-- `s.ends_with(p)`.
unfoldable pub ends_with : Str → Str → Bool
unfolding starts_with
ends_with p s = starts_with (reverse p) (reverse s)

unfoldable pub is_ascii_digit : ℕ → Bool
is_ascii_digit c = leb b'0' c && leb c b'9'

-- Whether the character `c` occurs in `s`.
unfoldable pub contains : ℕ → Str → Bool
contains c [] = false
contains c (a ∷ s) = (a == c) || contains c s
