-- ===== src/Ui/Throughput.antt =====
-- crates/zicade-ui/src/throughput.rs and chart_model.rs: counters turned into a history of rates, the
-- points of the chart, and the texts of counts and times. Rates are floating point: `F` is their type
-- and `per_second n d` the rate of `n` bytes over `d` nanoseconds.
pub mod Counts
pub mod Window
use zicade_rs.Prelude.{
  ℕ, zero, suc, ◌+◌, ◌-◌, ◌*◌, ◌/◌, ◌%◌, ◌==◌, leb, ltb, not, ◌&&◌, Bool, true, false, Option, none,
  some, List, [], ◌∷◌, ◌++◌, length, drop, if◌then◌else◌,
}
use zicade_rs.Text.{Str, text, decimal}

-- The counters at the last sample: bytes in, bytes out, and the time.
abbrev pub Sample : Type 0
Sample = ℕ × ℕ × ℕ

pub record Throughput (F : Type 0) : Type 0 where
  pub capacity : ℕ
  pub previous : Option Sample
  pub history : List (F × F)

abbrev pub pop_oldest : {A : Type 0} → List A → List A
pop_oldest [] = []
pop_oldest (x ∷ xs) = xs

module _ {F : Type 0} (per_second : ℕ → ℕ → F) where
  abbrev pub new : ℕ → Throughput F
  new capacity = record { capacity = capacity; previous = none; history = [] }

  -- The point of a new sample after `before`, on a history with room made for it.
  abbrev pub push_rate : Sample → ℕ → ℕ → ℕ → Throughput F → Throughput F
  push_rate before bytes_in bytes_out at t = record t {
    previous = some (bytes_in, bytes_out, at);
    history =
        (if length t.history == t.capacity then pop_oldest t.history else t.history)
        ++ ((
          per_second (bytes_in - before.0) (at - before.2),
          per_second (bytes_out - before.1) (at - before.2),
        )
            ∷ []);
  }

  abbrev pub sample_after : Option Sample → ℕ → ℕ → ℕ → Throughput F → Throughput F
  sample_after none bytes_in bytes_out at t = record t { previous = some (bytes_in, bytes_out, at) }
  sample_after (some before) bytes_in bytes_out at t =
      if at - before.2 == 0 then t else push_rate before bytes_in bytes_out at t

  unfoldable pub sample : ℕ → ℕ → ℕ → Throughput F → Throughput F
  sample bytes_in bytes_out at t = sample_after t.previous bytes_in bytes_out at t

  abbrev pub last_of : List (F × F) → Option (F × F)
  last_of [] = none
  last_of (x ∷ []) = some x
  last_of (x ∷ y ∷ xs) = last_of (y ∷ xs)

  abbrev pub latest : Throughput F → Option (F × F)
  latest t = last_of t.history

-- The digits, with a comma before each group of three but the first.
unfoldable pub group_digits : Bool → Str → Str
group_digits started [] = []
group_digits started (c ∷ s) =
    let rest = c ∷ group_digits true s in
    if started && (length (c ∷ s) % 3 == 0) then b',' ∷ rest else rest

unfoldable pub format_count : ℕ → Str
unfolding group_digits
format_count n = group_digits false (decimal n)

-- `{n:02}`.
abbrev pub two_digits : ℕ → Str
two_digits n = if ltb n 10 then text "0" ++ decimal n else decimal n

-- Of whole seconds.
unfoldable pub format_duration : ℕ → Str
format_duration secs =
    let h = secs / 3600 in
    let m = (secs / 60) % 60 in
    let s = secs % 60 in
    if (h == 0) && (m == 0)
    then decimal s ++ text "s"
    else (if h == 0
        then decimal m ++ (text "m " ++ (two_digits s ++ text "s"))
        else decimal h ++ (text "h " ++ (two_digits m ++ text "m")))

abbrev pub window : ℕ
window = 61

unfoldable pub when_label : ℕ → Str
when_label index =
    let ago = window - (index + 1) in
    if ago == 0
    then text "now"
    else (if leb 60 ago then text "1 min ago" else decimal ago ++ text " s ago")

abbrev pub repeat : {A : Type 0} → ℕ → A → List A
repeat zero x = []
repeat (suc n) x = x ∷ repeat n x

-- The drawn samples: the newest ones, after zeros where nothing was measured.
unfoldable pub series : {F : Type 0} → F → List (F × F) → List (F × F)
series zero_rate history =
    let wanted = window + 1 in
    let start = length history - wanted in
    repeat (wanted - (length history - start)) (zero_rate, zero_rate) ++ drop start history
