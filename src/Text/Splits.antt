-- ===== src/Text/Splits.antt =====
-- How a text that is put together from pieces is split again.
use mathlib.Core.List.{reverse-cons, reverse-append, reverse-reverse, append_assoc}
use zicade_rs.Prelude.{
  ◌⊎◌, ◌<◌, ℕ, suc, zero, ◌+◌, ◌≤◌, ◌/◌, ◌%◌, ◌≡◌, ◌≢◌, refl, arith, Bool, true, false, none, some,
  List, [], ◌∷◌, ◌++◌, reverse, All, ltb, ◌==◌, filter, Bool-cases, inl, inr,
}
use zicade_rs.Text.Basic.{Str, is_whitespace}
use zicade_rs.Text.Laws.{IsGraphic}
use zicade_rs.Text.Numbers.{decimal_digits, decimal}
use zicade_rs.Text.Pieces.{split_on, split_step, split_whitespace, split_once, rsplit_once}

-- No character of the text passes the test.
abbrev pub Lacks : (ℕ → Bool) → Str → Type 0
Lacks p = All (λ c. p c ≡ false)

pub Lacks-append : (p : ℕ → Bool) (s t : Str) → Lacks p s → Lacks p t → Lacks p (s ++ t)
Lacks-append p [] t h k = k
Lacks-append p (c ∷ s) t h k = (h.0, Lacks-append p s t h.1 k)

Lacks-reverse : (p : ℕ → Bool) (s : Str) → Lacks p s → Lacks p (reverse s)
Lacks-reverse p [] h = tt
Lacks-reverse p (c ∷ s) h =
    rw (reverse-cons c s) (Lacks-append p (reverse s) (c ∷ []) (Lacks-reverse p s h.1) (h.0, tt))

pub split_on-Lacks : (p : ℕ → Bool) (s : Str) → Lacks p s → split_on p s ≡ s ∷ []
unfolding split_on
split_on-Lacks p [] h = refl
split_on-Lacks p (c ∷ s) h = rw (h.0, split_on-Lacks p s h.1)

pub split_on-append :
    (p : ℕ → Bool) (s : Str) (c : ℕ) (t : Str)
    → Lacks p s
    → p c ≡ true
    → split_on p (s ++ (c ∷ t)) ≡ s ∷ split_on p t
unfolding split_on
split_on-append p [] c t h k = rw k
split_on-append p (a ∷ s) c t h k = rw (h.0, split_on-append p s c t h.1 k)

pub split_once-append :
    (p : ℕ → Bool) (s : Str) (c : ℕ) (t : Str)
    → Lacks p s
    → p c ≡ true
    → split_once p (s ++ (c ∷ t)) ≡ some (s, t)
unfolding split_once
split_once-append p [] c t h k = rw k
split_once-append p (a ∷ s) c t h k = rw (h.0, split_once-append p s c t h.1 k)

pub split_once-Lacks : (p : ℕ → Bool) (s : Str) → Lacks p s → split_once p s ≡ none
unfolding split_once
split_once-Lacks p [] h = refl
split_once-Lacks p (c ∷ s) h = rw (h.0, split_once-Lacks p s h.1)

-- Around the last separator, when what follows it has none.
pub rsplit_once-append :
    (p : ℕ → Bool) (s : Str) (c : ℕ) (t : Str)
    → Lacks p t
    → p c ≡ true
    → rsplit_once p (s ++ (c ∷ t)) ≡ some (s, t)
unfolding rsplit_once
rsplit_once-append p s c t h k =
    rw
      (
        reverse-append s (c ∷ t),
        reverse-cons c t,
        append_assoc (reverse t) (c ∷ []) (reverse s),
        split_once-append p (reverse t) c (reverse s) (Lacks-reverse p t h) k,
      )
      (rw (reverse-reverse s, reverse-reverse t))

pub rsplit_once-Lacks : (p : ℕ → Bool) (s : Str) → Lacks p s → rsplit_once p s ≡ none
unfolding rsplit_once
rsplit_once-Lacks p s h = rw (split_once-Lacks p (reverse s) (Lacks-reverse p s h))

pub split_whitespace_word : (w : Str) → w ≢ [] → IsGraphic w → split_whitespace w ≡ w ∷ []
unfolding split_whitespace filter
split_whitespace_word [] ne g = absurd (ne refl)
split_whitespace_word (c ∷ w) ne g = rw (split_on-Lacks is_whitespace (c ∷ w) g)

pub split_whitespace-append :
    (w rest : Str)
    → w ≢ []
    → IsGraphic w
    → split_whitespace (w ++ (32 ∷ rest)) ≡ w ∷ split_whitespace rest
unfolding split_whitespace filter
split_whitespace-append [] rest ne g = absurd (ne refl)
split_whitespace-append (c ∷ w) rest ne g =
    rw (split_on-append is_whitespace (c ∷ w) 32 rest g refl)

-- A decimal display is made of digits.
abbrev pub AllDigits : Str → Type 0
AllDigits = All (λ c. (b'0' ≤ c) × (c ≤ b'9'))

AllDigits-concat : (s : Str) (d : ℕ) → AllDigits s → d ≤ 9 → AllDigits (s ++ (b'0' + d) ∷ [])
AllDigits-concat [] d h k = omega arith
AllDigits-concat (c ∷ s) d h k = (h.0, AllDigits-concat s d h.1 k)

decimal_digits-AllDigits : (f n : ℕ) → AllDigits (decimal_digits f n)
unfolding decimal_digits
decimal_digits-AllDigits zero n = tt
decimal_digits-AllDigits (suc f) n = elim (Bool-cases (ltb n 10)) [
  | inl small ↦ rw small (ground arith)
  | inr large ↦ rw large (
      AllDigits-concat (decimal_digits f (n / 10)) (n % 10) (decimal_digits-AllDigits f (n / 10))
        (omega arith))
]

pub decimal-AllDigits : (n : ℕ) → AllDigits (decimal n)
unfolding decimal
decimal-AllDigits n = decimal_digits-AllDigits (suc n) n

digit_graphic : (c : ℕ) → b'0' ≤ c → c ≤ b'9' → is_whitespace c ≡ false
unfolding is_whitespace
digit_graphic c h k = ground arith

pub AllDigits-IsGraphic : (s : Str) → AllDigits s → IsGraphic s
AllDigits-IsGraphic [] h = tt
AllDigits-IsGraphic (c ∷ s) h = (digit_graphic c h.0.0 h.0.1, AllDigits-IsGraphic s h.1)

-- A test for one character that is no digit finds none.
pub AllDigits-Lacks :
    (s : Str) (a : ℕ) → AllDigits s → (a < b'0') ⊎ (b'9' < a) → Lacks (λ c. c == a) s
AllDigits-Lacks [] a h k = tt
AllDigits-Lacks (c ∷ s) a h k = (ground arith, AllDigits-Lacks s a h.1 k)

-- A split has a first piece.
pub split_on_cons : (p : ℕ → Bool) (s : Str) → (w : Str) × (ws : List Str) × (split_on p s ≡ w ∷ ws)
unfolding split_on split_step
split_on_cons p [] = ([], [], refl)
split_on_cons p (c ∷ s) =
    let (w, ws, e) = split_on_cons p s in
    elim (Bool-cases (p c)) [
      | inl stop ↦ ([], split_on p s, rw stop)
      | inr go ↦ (c ∷ w, ws, rw (go, e))
    ]
