-- ===== src/Win/Discovery/Wildcard.antt =====
-- What a wildcard of the bypass list matches.
use mathlib.Core.List.{append_assoc, append-nil}
use zicade_rs.Prelude.{
  subst, ℕ, Bool, true, false, ◌==◌, ◌≡◌, ◌≢◌, ◌↔◌, ◌⊎◌, inl, inr, refl, sym, ap, ◌∙◌, arith, List,
  [], ◌∷◌, ◌++◌, none, some, Bool-cases, Option-cases, any, Any,
}
use zicade_rs.Text.{
  Str, text, is_empty, str_eq, str_eq_iff, contains, split_on, split_on_cons, split_step,
  strip_prefix, strip_prefix-some, strip_prefix-append, ends_with_iff, after_first,
  after_first-some, after_first-found, after_first-starts, split_on-Lacks, Lacks,
}
use zicade_rs.Win.Discovery.{
  match_parts, match_pieces, wildcard_match, host_bypassed, entry_matches,
}

abbrev is_star : ℕ → Bool
is_star c = c == b'*'

-- A pattern matches a text: a star stands for any run of characters, every other character for itself.
abbrev pub Glob : Str → Str → Type 0
Glob [] t = t ≡ []
Glob (c ∷ p) t =
    ((c ≡ b'*') × ((gap : Str) × (rest : Str) × (t ≡ gap ++ rest) × Glob p rest))
    ⊎ ((c ≢ b'*') × ((rest : Str) × (t ≡ c ∷ rest) × Glob p rest))

-- The segments behind the first star fill the rest of a text, each after some gap.
abbrev Fits : List Str → Str → Type 0
Fits [] t = t ≡ []
Fits (w ∷ ws) t = (gap : Str) × (r : Str) × (t ≡ gap ++ (w ++ r)) × Fits ws r

abbrev Fills : List Str → Str → Type 0
Fills [] t = ⊥
Fills (w ∷ ws) t = (r : Str) × (t ≡ w ++ r) × Fits ws r

-- One character of the pattern more, over the segments of the others.
Fills-star :
    (w : Str) (ws : List Str) (t : Str)
    → Fills ([] ∷ w ∷ ws) t ↔ ((gap : Str) × (rest : Str) × (t ≡ gap ++ rest) × Fills (w ∷ ws) rest)
Fills-star w ws t = (
  λ (s, e, (gap, r, k, rest)). (gap, w ++ r, e ∙ k, (r, refl, rest)),
  λ (gap, s, e, (r, k, rest)). (t, refl, (gap, r, e ∙ ap (λ u. gap ++ u) k, rest)),
)

Fills-other :
    (c : ℕ) (w : Str) (ws : List Str) (t : Str)
    → Fills ((c ∷ w) ∷ ws) t ↔ ((rest : Str) × (t ≡ c ∷ rest) × Fills (w ∷ ws) rest)
Fills-other c w ws t = (
  λ (r, e, rest). (w ++ r, e, (r, refl, rest)),
  λ (s, e, (r, k, rest)). (r, e ∙ ap (λ u. c ∷ u) k, rest),
)

Glob-step :
    (c : ℕ) (p : Str) (ws : List Str) (w : Str)
    → ((t : Str) → Glob p t ↔ Fills (w ∷ ws) t)
    → (t : Str) → Glob (c ∷ p) t ↔ Fills (split_step (is_star c) c (w ∷ ws)) t
unfolding split_step
Glob-step c p ws w ih t = elim (Bool-cases (is_star c)) [
  | inl star ↦ rw star (
    λ g. elim g [
      | inl (same, (gap, rest, e, more)) ↦ (Fills-star w ws t).1 (gap, rest, e, (ih rest).0 more)
      | inr (other, more) ↦ absurd (other (ground arith))
    ],
    λ f.
        let (gap, rest, e, more) = (Fills-star w ws t).0 f in
        inl (ground arith, (gap, rest, e, (ih rest).1 more)),
  )
  | inr other ↦ rw other (
    λ g. elim g [
      | inl (same, more) ↦ absurd (ground arith)
      | inr (ne, (rest, e, more)) ↦ (Fills-other c w ws t).1 (rest, e, (ih rest).0 more)
    ],
    λ f.
        let (rest, e, more) = (Fills-other c w ws t).0 f in
        inr (ground arith, (rest, e, (ih rest).1 more)),
  )
]

Glob-iff : (p t : Str) → Glob p t ↔ Fills (split_on is_star p) t
unfolding split_on split_step
Glob-iff [] t = (λ e. ([], e, refl), λ (r, e, n). e ∙ n)
Glob-iff (c ∷ p) t =
    let (w, ws, pieces) = split_on_cons is_star p in
    rw pieces
      (Glob-step c p ws w (λ s. subst (λ ps. Glob p s ↔ Fills ps s) pieces (Glob-iff p s)) t)

match_parts_step :
    (part next : Str) (parts : List Str) (t : Str)
    → match_parts (part ∷ next ∷ parts) t
      ≡ elim (after_first part t) [ none ↦ false | some r ↦ match_parts (next ∷ parts) r ]
unfolding match_parts strip_prefix is_empty
match_parts_step [] next parts t = rw (after_first-starts [] t refl)
match_parts_step (c ∷ part) next parts t = refl

match_parts-Fits :
    (part : Str) (parts : List Str) (t : Str)
    → (match_parts (part ∷ parts) t ≡ true) ↔ Fits (part ∷ parts) t
unfolding match_parts
match_parts-Fits part [] t = (
  λ h.
      let (above, e) = (ends_with_iff part t).0 h in
      (above, [], e ∙ ap (λ u. above ++ u) (sym (append-nil part)), refl),
  λ (gap, r, e, n).
      (ends_with_iff part t).1
        (gap, e ∙ ap (λ u. gap ++ (part ++ u)) n ∙ ap (λ u. gap ++ u) (append-nil part)),
)
match_parts-Fits part (next ∷ parts) t = rw (match_parts_step part next parts t) (
  λ h. elim (Option-cases (after_first part t)) [
    | inl miss ↦ absurd (ground (arith, rw miss at h))
    | inr (r, hit) ↦
        let (gap, e) = after_first-some part t hit in
        (gap, r, e, (match_parts-Fits next parts r).0 (rw hit at h))
  ],
  λ (gap, r, e, (gap2, r2, e2, fits)).
      let (s, hit, (later, k)) = after_first-found part gap r in
      rw (e, hit)
        ((match_parts-Fits next parts s).1 (
          later ++ gap2,
          r2,
          k ∙ ap (λ u. later ++ u) e2 ∙ sym (append_assoc later gap2 (next ++ r2)),
          fits,
        )),
)

match_pieces-Fills :
    (w v : Str) (ws : List Str) (t : Str)
    → (match_pieces (w ∷ v ∷ ws) t ≡ true) ↔ Fills (w ∷ v ∷ ws) t
match_pieces-Fills w v ws t = (
  λ h. elim (Option-cases (strip_prefix w t)) [
    | inl miss ↦ absurd (ground (arith, rw (match_pieces, miss) at h))
    | inr (r, hit) ↦
        (r, strip_prefix-some w t hit, (match_parts-Fits v ws r).0 (rw (match_pieces, hit) at h))
  ],
  λ (r, e, fits). rw (e, match_pieces, strip_prefix-append w r) ((match_parts-Fits v ws r).1 fits),
)

-- A pattern with a star has at least two segments.
contains-pieces :
    (p : Str)
    → contains b'*' p ≡ true
    → (w : Str) × (v : Str) × (ws : List Str) × (split_on is_star p ≡ w ∷ v ∷ ws)
unfolding contains split_on split_step
contains-pieces [] h = absurd (ground arith)
contains-pieces (c ∷ p) h = elim (Bool-cases (is_star c)) [
  | inl star ↦ let (w, ws, e) = split_on_cons is_star p in ([], w, ws, rw (star, e))
  | inr other ↦
      let (w, v, ws, e) = contains-pieces p (rw other at h) in (c ∷ w, v, ws, rw (other, e))
]

contains-Lacks : (c : ℕ) (s : Str) → contains c s ≡ false → Lacks (λ a. a == c) s
unfolding contains
contains-Lacks c [] h = tt
contains-Lacks c (a ∷ s) h = (ground arith, contains-Lacks c s (ground arith))

literal_iff : (p t : Str) → Lacks is_star p → (str_eq p t ≡ true) ↔ Glob p t
literal_iff p t plain = (
  λ h. (Glob-iff p t).1 (
      rw (split_on-Lacks is_star p plain)
        ([], sym ((str_eq_iff p t).0 h) ∙ sym (append-nil p), refl)),
  λ g.
      let (r, e, n) =
        subst (λ ps. Fills ps t) (split_on-Lacks is_star p plain) ((Glob-iff p t).0 g) in
      (str_eq_iff p t).1 (sym (append-nil p) ∙ ap (λ u. p ++ u) (sym n) ∙ sym e),
)

pub wildcard_match_iff : (p t : Str) → (wildcard_match p t ≡ true) ↔ Glob p t
unfolding wildcard_match
wildcard_match_iff p t = elim (Bool-cases (contains b'*' p)) [
  | inl star ↦
      let (w, v, ws, e) = contains-pieces p star in
      rw (star, e)
        (
          λ h.
              (Glob-iff p t).1
                (subst (λ ps. Fills ps t) (sym e) ((match_pieces-Fills w v ws t).0 h)),
          λ g. (match_pieces-Fills w v ws t).1 (subst (λ ps. Fills ps t) e ((Glob-iff p t).0 g)),
        )
  | inr plain ↦ rw plain (literal_iff p t (contains-Lacks b'*' p plain))
]

-- What an entry of the list stands for: `<local>` for the hosts without a dot, any other entry for the
-- texts that it matches as a pattern.
abbrev pub Covers : Str → Str → Type 0
Covers host entry =
    ((entry ≡ text "<local>") × (contains b'.' host ≡ false))
    ⊎ ((entry ≢ text "<local>") × Glob entry host)

entry_matches_iff : (host entry : Str) → (entry_matches host entry ≡ true) ↔ Covers host entry
entry_matches_iff host entry =
    ground (arith, str_eq_iff entry (text "<local>"), wildcard_match_iff entry host)

-- A host is bypassed exactly if it has no dot and `<local>` is listed, or another entry of the list
-- matches it with each of its stars standing for some run of characters.
pub host_bypassed_iff :
    (host : Str) (entries : List Str)
    → (host_bypassed host entries ≡ true) ↔ Any (Covers host) entries
unfolding host_bypassed any
host_bypassed_iff host [] = (λ h. ground arith, λ a. absurd a)
host_bypassed_iff host (e ∷ entries) =
    ground (arith, entry_matches_iff host e, host_bypassed_iff host entries)
