-- ===== src/Text/Laws.antt =====
-- Laws of text equality.
use zicade_rs.Prelude.{
  ◌≡◌, refl, sym, ap, ◌∙◌, ◌≢◌, ℕ, false, [], ◌++◌, reverse, All, ◌↔◌, true, ◌∷◌, arith,
}
use mathlib.Core.List.{reverse-cons, reverse-append, reverse-reverse}
use zicade_rs.Text.Basic.{Str, str_eq, is_whitespace, trim_start, trim_end, trim}

pub str_eq_iff : (s t : Str) → (str_eq s t ≡ true) ↔ (s ≡ t)
unfolding str_eq
str_eq_iff (a ∷ s) (b ∷ t) = ground (arith, str_eq_iff s t)
str_eq_iff _ _ = ground arith

pub str_eq_refl : (s : Str) → str_eq s s ≡ true
str_eq_refl s = (str_eq_iff s s).1 refl

trim_start_graphic : (c : ℕ) (s : Str) → is_whitespace c ≡ false → trim_start (c ∷ s) ≡ c ∷ s
unfolding trim_start
trim_start_graphic c s h = rw h

abbrev pub IsGraphic : Str → Type 0
IsGraphic = All (λ c. is_whitespace c ≡ false)

trim_start_all : (s : Str) → IsGraphic s → trim_start s ≡ s
unfolding trim_start
trim_start_all [] g = refl
trim_start_all (c ∷ s) g = rw g.0

trim_start-append : (e rest : Str) → e ≢ [] → IsGraphic e → trim_start (e ++ rest) ≡ e ++ rest
trim_start-append [] rest ne g = absurd (ne refl)
trim_start-append (c ∷ e) rest ne g = trim_start_graphic c (e ++ rest) g.0

IsGraphic-append : (s t : Str) → IsGraphic s → IsGraphic t → IsGraphic (s ++ t)
IsGraphic-append [] t g h = h
IsGraphic-append (c ∷ s) t g h = (g.0, IsGraphic-append s t g.1 h)

IsGraphic-reverse : (s : Str) → IsGraphic s → IsGraphic (reverse s)
IsGraphic-reverse [] g = tt
IsGraphic-reverse (c ∷ s) g =
    rw (reverse-cons c s)
      (IsGraphic-append (reverse s) (c ∷ []) (IsGraphic-reverse s g.1) (g.0, tt))

reverse-ne-nil : (s : Str) → s ≢ [] → reverse s ≢ []
reverse-ne-nil s ne e = ne (sym (reverse-reverse s) ∙ ap reverse e)

-- Trimming leaves a text alone that begins with a graphic character and ends in graphic text.
pub trim-append :
    (c : ℕ) (s e : Str)
    → is_whitespace c ≡ false
    → e ≢ []
    → IsGraphic e
    → trim (c ∷ (s ++ e)) ≡ c ∷ (s ++ e)
unfolding trim trim_end
trim-append c s e h ne g = rw (
  trim_start_graphic c (s ++ e) h,
  reverse-append (c ∷ s) e,
  trim_start-append (reverse e) (reverse (c ∷ s)) (reverse-ne-nil e ne) (IsGraphic-reverse e g),
  ← reverse-append (c ∷ s) e,
  reverse-reverse (c ∷ (s ++ e)),
)

pub trim_graphic : (s : Str) → IsGraphic s → trim s ≡ s
unfolding trim trim_end
trim_graphic [] g = refl
trim_graphic (c ∷ s) g =
    rw (trim_start_graphic c s g.0, reverse-cons c s)
      (ap reverse (
          trim_start_all (reverse s ++ c ∷ [])
            (IsGraphic-append (reverse s) (c ∷ []) (IsGraphic-reverse s g.1) (g.0, tt)))
        ∙ ap reverse (sym (reverse-cons c s))
        ∙ reverse-reverse (c ∷ s))
