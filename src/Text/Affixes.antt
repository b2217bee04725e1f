-- ===== src/Text/Affixes.antt =====
-- What a prefix and a suffix of a text are, and the text behind the first occurrence of another.
use mathlib.Core.List.{reverse-reverse, reverse-append, append_assoc}
use zicade_rs.Prelude.{
  length-append, ap, ◌∙◌, Option-cases, sym, true, some, [], ◌∷◌, ◌++◌, arith, inl, inr, refl, ◌≡◌,
  ◌↔◌, reverse, ◌≤◌, length, ◌==◌, Bool-cases,
}
use zicade_rs.Text.Basic.{Str, starts_with, ends_with, strip_prefix}
use zicade_rs.Text.Pieces.{after_first}

pub starts_with_iff : (p s : Str) → (starts_with p s ≡ true) ↔ ((rest : Str) × (s ≡ p ++ rest))
unfolding starts_with
starts_with_iff [] s = (λ h. (s, refl), λ h. refl)
starts_with_iff (a ∷ p) [] = (λ h. cc, λ h. cc)
starts_with_iff (a ∷ p) (b ∷ s) = ground (arith, starts_with_iff p s)

pub ends_with_iff : (p s : Str) → (ends_with p s ≡ true) ↔ ((above : Str) × (s ≡ above ++ p))
unfolding ends_with
ends_with_iff p s = (
  λ h.
      let (rest, e) = (starts_with_iff (reverse p) (reverse s)).0 h in
      (
        reverse rest,
        sym (reverse-reverse s)
            ∙ ap reverse e
            ∙ reverse-append (reverse p) rest
            ∙ ap (λ t. reverse rest ++ t) (reverse-reverse p),
      ),
  λ (above, e).
      (starts_with_iff (reverse p) (reverse s)).1
        (reverse above, ap reverse e ∙ reverse-append above p),
)

pub strip_prefix-append : (p rest : Str) → strip_prefix p (p ++ rest) ≡ some rest
unfolding strip_prefix
strip_prefix-append [] rest = refl
strip_prefix-append (c ∷ p) rest = ground (arith, strip_prefix-append p rest)

pub strip_prefix-some : (p s : Str) {rest : Str} → strip_prefix p s ≡ some rest → s ≡ p ++ rest
unfolding strip_prefix
strip_prefix-some [] s e = ground arith
strip_prefix-some (a ∷ p) [] e = ground arith
strip_prefix-some (a ∷ p) (b ∷ s) {rest} e = elim (Bool-cases (a == b)) [
  | inl same ↦ ground (arith, strip_prefix-some p s (rw same at e))
  | inr other ↦ ground arith
]

-- Of two splits of one text, the one whose first part is shorter has the second part of the other in its
-- own.
split_shorter : (a x b y : Str) → length a ≤ length b → a ++ x ≡ b ++ y → (g : Str) × (x ≡ g ++ y)
split_shorter [] x b y h e = (b, e)
split_shorter (c ∷ a) x [] y h e = absurd (omega arith)
split_shorter (c ∷ a) x (d ∷ b) y h e = split_shorter a x b y (omega arith) (cc)

pub after_first-some :
    (p s : Str) {rest : Str} → after_first p s ≡ some rest → (gap : Str) × (s ≡ gap ++ (p ++ rest))
unfolding after_first
after_first-some p [] e = ([], strip_prefix-some p [] e)
after_first-some p (c ∷ s) {rest} e = elim (Option-cases (strip_prefix p (c ∷ s))) [
  | inl miss ↦
      let (gap, found) = after_first-some p s (rw miss at e) in (c ∷ gap, ap (λ w. c ∷ w) found)
  | inr (r, hit) ↦ ([], strip_prefix-some p (c ∷ s) (hit ∙ rw hit at e))
]

pub after_first-starts :
    (p s : Str) {rest : Str} → strip_prefix p s ≡ some rest → after_first p s ≡ some rest
unfolding after_first
after_first-starts p [] e = e
after_first-starts p (c ∷ s) e = rw e

-- An occurrence anywhere is found, the first one no later than it.
pub after_first-found :
    (p gap rest : Str)
    → (r : Str) × (after_first p (gap ++ (p ++ rest)) ≡ some r) × ((g : Str) × (r ≡ g ++ rest))
unfolding after_first
after_first-found p [] rest =
    (rest, after_first-starts p (p ++ rest) (strip_prefix-append p rest), ([], refl))
after_first-found p (c ∷ gap) rest =
    elim (Option-cases (strip_prefix p (c ∷ (gap ++ (p ++ rest))))) [
      | inl miss ↦
          let (r, found, later) = after_first-found p gap rest in (r, rw (miss, found), later)
      | inr (r, hit) ↦ (
        r,
        rw hit,
        split_shorter p r (c ∷ (gap ++ p)) rest (omega (arith, length-append gap p))
            (sym (strip_prefix-some p _ hit) ∙ ap (λ w. c ∷ w) (sym (append_assoc gap p rest))),
      )
    ]
