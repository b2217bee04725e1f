-- ===== src/Ui/Throughput/Window.antt =====
-- The chart's window on the history of rates.
use zicade_rs.Prelude.{
  ℕ, zero, suc, ◌+◌, ◌-◌, ◌==◌, ◌≡◌, ◌≤◌, Bool-cases, inl, inr, Option, none, some, List, [], ◌∷◌,
  ◌++◌, refl, arith, length, length-append, length-drop, drop, if◌then◌else◌,
}
use zicade_rs.Ui.Throughput.{
  Throughput, Sample, sample, sample_after, pop_oldest, series, repeat, window,
}

length-repeat : {A : Type 0} (n : ℕ) (x : A) → length (repeat n x) ≡ n
length-repeat zero x = refl
length-repeat (suc n) x = omega (arith, length-repeat n x)

-- The chart always draws the window and one sample more.
length-series :
    {F : Type 0} (zero_rate : F) (history : List (F × F))
    → length (series zero_rate history) ≡ window + 1
unfolding series
length-series {F} zero_rate history =
    let start = length history - (window + 1) in
    let padding : List (F × F) =
      repeat (window + 1 - (length history - start)) (zero_rate, zero_rate) in
    omega (
      arith,
      length-append padding (drop start history),
      length-repeat {A = F × F} (window + 1 - (length history - start)) (zero_rate, zero_rate),
      length-drop start history,
    )

module _ {F : Type 0} (per_second : ℕ → ℕ → F) where
  length-pop_oldest : (xs : List (F × F)) → length (pop_oldest xs) ≡ length xs - 1
  length-pop_oldest [] = refl
  length-pop_oldest (x ∷ xs) = omega arith

  pushed-le :
      (capacity : ℕ) (xs : List (F × F)) (x : F × F)
      → 1 ≤ capacity
      → length xs ≤ capacity
      → length ((if length xs == capacity then pop_oldest xs else xs) ++ (x ∷ [])) ≤ capacity
  pushed-le capacity xs x room h = elim (Bool-cases (length xs == capacity)) [
    | inl full ↦
        rw full (omega (arith, length-append (pop_oldest xs) (x ∷ []), length-pop_oldest xs))
    | inr free ↦ rw free (ground (arith, length-append xs (x ∷ []), free))
  ]

  sample_after-le :
      (before : Option Sample) (bytes_in bytes_out at : ℕ) (t : Throughput F)
      → 1 ≤ t.capacity
      → length t.history ≤ t.capacity
      → length (sample_after per_second before bytes_in bytes_out at t).history ≤ t.capacity
  sample_after-le none bytes_in bytes_out at t room h = h
  sample_after-le (some before) bytes_in bytes_out at t room h =
      elim (Bool-cases (at - before.2 == 0)) [
        | inl same ↦ rw same h
        | inr later ↦ rw later (pushed-le t.capacity t.history _ room h)
      ]

  -- Samples never take the history beyond its capacity, when that is not zero.
  sample-le-capacity :
      (bytes_in bytes_out at : ℕ) (t : Throughput F)
      → 1 ≤ t.capacity
      → length t.history ≤ t.capacity
      → length (sample per_second bytes_in bytes_out at t).history ≤ t.capacity
  unfolding sample
  sample-le-capacity bytes_in bytes_out at t room h =
      sample_after-le t.previous bytes_in bytes_out at t room h
