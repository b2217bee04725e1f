-- ===== src/Text/RoundTrip.antt =====
-- Parsing a number gives back the number that was displayed.
use zicade_rs.Prelude.{
  ℕ, zero, suc, ◌+◌, ◌*◌, ◌/◌, ◌%◌, ◌<◌, ◌≡◌, ◌≢◌, ◌==◌, refl, ◌∙◌, ap, Option-cases, some, [], ◌∷◌,
  ◌++◌, arith, ltb, Bool-cases, inl, inr,
}
use mathlib.Core.List.{concat-ne-nil}
use zicade_rs.Text.Basic.{Str}
use zicade_rs.Text.Numbers.{digit_value, parse_digits, parse_uint, decimal_digits, decimal}

digit_value_lem : (d : ℕ) → d < 10 → digit_value 10 (b'0' + d) ≡ some d
unfolding digit_value
digit_value_lem d h = ground arith

-- Reading on after the digits of `n`, from any accumulator that leaves room.
parse_digits-append :
    (bound : ℕ) (s : Str) (acc v d : ℕ)
    → parse_digits 10 bound acc s ≡ some v
    → d < 10
    → v * 10 + d < bound
    → parse_digits 10 bound acc (s ++ (b'0' + d) ∷ []) ≡ some (v * 10 + d)
unfolding parse_digits
parse_digits-append bound [] acc v d e h r = ground (arith, digit_value_lem d h)
parse_digits-append bound (c ∷ s) acc v d e h r = elim (Option-cases (digit_value 10 c)) [
  | inl bad ↦ ground arith
  | inr (k, good) ↦ ground (arith, parse_digits-append bound s (acc * 10 + k) v d)
]

parse_digits-decimal_digits :
    (bound f n : ℕ) → n < f → n < bound → parse_digits 10 bound 0 (decimal_digits f n) ≡ some n
unfolding decimal_digits parse_digits
parse_digits-decimal_digits bound zero n h r = absurd (omega arith)
parse_digits-decimal_digits bound (suc f) n h r = elim (Bool-cases (ltb n 10)) [
  | inl small ↦ rw small (ground (arith, digit_value_lem n))
  | inr large ↦ rw large (
      parse_digits-append bound (decimal_digits f (n / 10)) 0 (n / 10) (n % 10)
        (parse_digits-decimal_digits bound f (n / 10) (ground arith) (ground arith)) (omega arith)
        (omega arith)
      ∙ ap some (omega arith))
]

decimal_digits-ne-nil : (f n : ℕ) → decimal_digits (suc f) n ≢ []
unfolding decimal_digits
decimal_digits-ne-nil f n e = elim (Bool-cases (ltb n 10)) [
  | inl small ↦ ground arith
  | inr large ↦ concat-ne-nil _ (decimal_digits f (n / 10)) (rw large at e)
]

-- Digits are read the same way by the parser that allows for a leading `+`.
parse_uint-parse_digits :
    (bound : ℕ) (s : Str) {v : ℕ}
    → s ≢ []
    → parse_digits 10 bound 0 s ≡ some v
    → parse_uint 10 bound s ≡ some v
unfolding parse_uint parse_digits digit_value
parse_uint-parse_digits bound [] ne e = absurd (ne refl)
parse_uint-parse_digits bound (c ∷ []) ne e = e
parse_uint-parse_digits bound (c ∷ d ∷ s) ne e = elim (Bool-cases (c == b'+')) [
  | inl plus ↦ ground arith
  | inr other ↦ rw other e
]

-- A number of the type is read back from its display.
pub parse_uint-decimal : (bound n : ℕ) → n < bound → parse_uint 10 bound (decimal n) ≡ some n
unfolding decimal
parse_uint-decimal bound n h =
    parse_uint-parse_digits bound _ (decimal_digits-ne-nil n n)
      (parse_digits-decimal_digits bound (suc n) n (omega arith) h)
