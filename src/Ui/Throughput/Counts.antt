-- ===== src/Ui/Throughput/Counts.antt =====
-- A count is read back from its display.
use zicade_rs.Prelude.{
  ℕ, ◌==◌, ◌%◌, ◌<◌, ◌≡◌, Bool, true, false, Bool-cases, inl, inr, not, ◌&&◌, some, [], ◌∷◌, filter,
  length, refl, ap, ◌∙◌, arith,
}
use zicade_rs.Text.{
  Str, decimal, parse_uint, parse_uint-decimal, Lacks, decimal-AllDigits, AllDigits-Lacks,
}
use zicade_rs.Ui.Throughput.{group_digits, format_count}

abbrev without_commas : Str → Str
without_commas s = filter (λ c. not (c == b',')) s

without_commas-group_digits :
    (started : Bool) (s : Str)
    → Lacks (λ c. c == b',') s
    → without_commas (group_digits started s) ≡ s
unfolding filter group_digits
without_commas-group_digits started [] h = refl
without_commas-group_digits started (c ∷ s) h =
    let rest = without_commas-group_digits true s h.1 in
    elim (Bool-cases (started && (length (c ∷ s) % 3 == 0))) [
      | inl group ↦ rw (group, h.0) (ap (λ r. c ∷ r) rest)
      | inr inside ↦ rw (inside, h.0) (ap (λ r. c ∷ r) rest)
    ]

-- Without its commas, the display of a count is read back as the count.
parse_uint-format_count :
    (n : ℕ) (bound : ℕ) → n < bound → parse_uint 10 bound (without_commas (format_count n)) ≡ some n
unfolding format_count
parse_uint-format_count n bound h =
    ap (parse_uint 10 bound) (
      without_commas-group_digits false (decimal n)
        (AllDigits-Lacks (decimal n) b',' (decimal-AllDigits n) (inl (omega arith))))
    ∙ parse_uint-decimal bound n h
