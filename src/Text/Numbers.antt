-- ===== src/Text/Numbers.antt =====
-- Integers as text: Rust's `from_str_radix` for unsigned types, and the decimal display.
use zicade_rs.Prelude.{
  ℕ, zero, suc, ◌+◌, ◌-◌, ◌*◌, ◌/◌, ◌%◌, ◌&&◌, Option, none, some, [], ◌∷◌, ◌++◌, ltb, leb, ◌==◌,
  if◌then◌else◌, and_then,
}
use zicade_rs.Text.Basic.{Str}

-- `char::to_digit(radix)`.
unfoldable pub digit_value : ℕ → ℕ → Option ℕ
digit_value radix c =
    let d : ℕ =
      if leb b'0' c && leb c b'9'
      then c - b'0'
      else (if leb b'a' c && leb c b'z'
          then (c - b'a') + 10
          else (if leb b'A' c && leb c b'Z' then (c - b'A') + 10 else radix)) in
    if ltb d radix then some d else none

-- The checked multiplication and addition of each round; `bound` is 2 ^ bits.
unfoldable pub parse_digits : ℕ → ℕ → ℕ → Str → Option ℕ
parse_digits radix bound acc [] = some acc
parse_digits radix bound acc (c ∷ s) = and_then (digit_value radix c) λ d.
    let rest = parse_digits radix bound (acc * radix + d) s in
    if ltb (acc * radix + d) bound then rest else none

-- An unsigned type takes one leading `+`; no digits at all is an error.
unfoldable pub parse_uint : ℕ → ℕ → Str → Option ℕ
unfolding parse_digits
parse_uint radix bound [] = none
parse_uint radix bound (c ∷ []) = parse_digits radix bound 0 (c ∷ [])
parse_uint radix bound (c ∷ d ∷ s) =
    if c == b'+' then parse_digits radix bound 0 (d ∷ s) else parse_digits radix bound 0 (c ∷ d ∷ s)

-- The digits of `n`, most significant first; one round of fuel for each.
unfoldable pub decimal_digits : ℕ → ℕ → Str
decimal_digits zero n = []
decimal_digits (suc f) n =
    let more = decimal_digits f (n / 10) ++ ((b'0' + n % 10) ∷ []) in
    if ltb n 10 then (b'0' + n) ∷ [] else more

-- `n.to_string()`: `n` rounds and one more are always enough.
unfoldable pub decimal : ℕ → Str
unfolding decimal_digits
decimal n = decimal_digits (suc n) n
