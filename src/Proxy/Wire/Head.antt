-- ===== src/Proxy/Wire/Head.antt =====
-- What reading a head takes from the socket.
use mathlib.Core.List.{append_assoc}
use zicade_rs.Prelude.{
  subst, ℕ, ◌+◌, ◌≤◌, true, false, Bool-cases, [], ◌∷◌, ◌++◌, List, ok, ◌≡◌, ◌≢◌, refl, ap, ◌∙◌,
  arith, inl, inr, map, length, ltb, length-append,
}
use zicade_rs.Proxy.Wire.{
  Bytes, Input, byte, broken, read_head, read_head_from, parse_head, end_of_head, max_head_bytes,
  Head,
}
use zicade_rs.Text.{ends_with, Str}

module _ (lossy : Bytes → Str) where
  -- The bytes `h` were taken after `buf`, up to the first end of a head.
  pub record IsTaken (buf h : Bytes) (input rest : List Input) (head : Head) : Type 0 where
    pub taken : input ≡ map byte h ++ rest
    pub parsed : head ≡ parse_head lossy (buf ++ h)
    pub ends : ends_with end_of_head (buf ++ h) ≡ true
    pub first_end :
        (p q : Bytes) → h ≡ p ++ q → p ≢ [] → q ≢ [] → ends_with end_of_head (buf ++ p) ≡ false
    pub few : length (buf ++ h) ≤ max_head_bytes + 1

  head_eq : {c a : ℕ} {s t : Bytes} → c ∷ s ≡ a ∷ t → c ≡ a
  head_eq e = cc

  tail_eq : {c a : ℕ} {s t : Bytes} → c ∷ s ≡ a ∷ t → s ≡ t
  tail_eq e = cc

  first_end_one :
      (buf : Bytes) (c : ℕ) (p q : Bytes)
      → c ∷ [] ≡ p ++ q
      → p ≢ []
      → q ≢ []
      → ends_with end_of_head (buf ++ p) ≡ false
  first_end_one buf c [] q e ne ne' = absurd (ne refl)
  first_end_one buf c (a ∷ []) [] e ne ne' = absurd (ne' refl)
  first_end_one buf c (a ∷ []) (d ∷ q) e ne ne' = cc
  first_end_one buf c (a ∷ a' ∷ p) q e ne ne' = cc

  first_end_cons :
      (buf : Bytes) (c : ℕ) (h : Bytes)
      → ends_with end_of_head (buf ++ (c ∷ [])) ≡ false
      → ((p q : Bytes)
          → h ≡ p ++ q
          → p ≢ []
          → q ≢ []
          → ends_with end_of_head ((buf ++ (c ∷ [])) ++ p) ≡ false)
      → (p q : Bytes) → c ∷ h ≡ p ++ q
      → p ≢ []
      → q ≢ []
      → ends_with end_of_head (buf ++ p) ≡ false
  first_end_cons buf c h unended later [] q e ne ne' = absurd (ne refl)
  first_end_cons buf c h unended later (a ∷ []) q e ne ne' =
      subst (λ x. ends_with end_of_head (buf ++ (x ∷ [])) ≡ false) (head_eq e) unended
  first_end_cons buf c h unended later (a ∷ a' ∷ p) q e ne ne' =
      subst (λ t. ends_with end_of_head t ≡ false)
        (append_assoc buf (c ∷ []) (a' ∷ p) ∙ ap (λ x. buf ++ (x ∷ a' ∷ p)) (head_eq e))
        (later (a' ∷ p) q (tail_eq e) (λ z. cc) ne')

  read_head_from-IsTaken :
      (buf : Bytes) (input rest : List Input) {head : Head}
      → length buf ≤ max_head_bytes
      → read_head_from lossy buf input ≡ (ok head, rest)
      → (h : Bytes) × IsTaken buf h input rest head
  unfolding read_head_from
  read_head_from-IsTaken buf [] rest few e = cc
  read_head_from-IsTaken buf (broken why ∷ input) rest few e = cc
  read_head_from-IsTaken buf (byte c ∷ input) rest {head = head} few e =
      let one = length-append buf (c ∷ []) in
      elim (Bool-cases (ends_with end_of_head (buf ++ (c ∷ [])))) [
        | inl stop ↦ (
          c ∷ [],
          record {
            taken = ground (arith, stop);
            parsed = ground (arith, stop);
            ends = stop;
            first_end = first_end_one buf c;
            few = omega (arith, one);
          },
        )
        | inr more ↦ elim (Bool-cases (ltb max_head_bytes (length (buf ++ (c ∷ []))))) [
          | inl long ↦ ground (arith, more, long)
          | inr short ↦
              (let w =
                  read_head_from-IsTaken (buf ++ (c ∷ [])) input rest {head = head}
                    (ground (arith, short)) (ground (arith, more, short)) in
                (
                  c ∷ w.0,
                  record {
                    taken = ap (λ t. byte c ∷ t) w.1.taken;
                    parsed = w.1.parsed ∙ ap (parse_head lossy) (append_assoc buf (c ∷ []) w.0);
                    ends =
                        subst (λ t. ends_with end_of_head t ≡ true) (append_assoc buf (c ∷ []) w.0)
                          w.1.ends;
                    first_end = first_end_cons buf c w.0 more w.1.first_end;
                    few =
                        subst (λ t. length t ≤ max_head_bytes + 1) (append_assoc buf (c ∷ []) w.0)
                          w.1.few;
                  },
                ))
        ]
      ]

  -- Reading a head takes exactly the bytes up to the first empty line, at most one more than the
  -- limit, and parses those: what follows, the tunnel's bytes, stays in the socket.
  pub read_head-IsTaken :
      (input rest : List Input) (head : Head)
      → read_head lossy input ≡ (ok head, rest)
      → (h : Bytes) × IsTaken [] h input rest head
  unfolding read_head
  read_head-IsTaken input rest head e =
      read_head_from-IsTaken [] input rest {head = head} (omega arith) e
