-- ===== src/Win/Discovery/Urls.antt =====
-- The host that a URL names, and how the static resolver answers for it.
use mathlib.Core.List.{append_assoc, append-nil}
use zicade_rs.Prelude.{
  ℕ, Bool, true, false, ◌==◌, ◌||◌, ◌≡◌, ◌⊎◌, inl, inr, refl, arith, [], ◌∷◌, ◌++◌, Option, none,
  some, Any, Bool-cases,
}
use zicade_rs.Text.{
  Str, text, split_on, split_once, rsplit_once, strip_prefix, after_first, to_ascii_lowercase,
  Lacks, Lacks-append, split_on-Lacks, split_on-append, rsplit_once-append, rsplit_once-Lacks,
  split_once-append, split_once-Lacks,
}
use zicade_rs.Routing.Pac.{PacResult, parse}
use zicade_rs.Win.Discovery.Wildcard.{Covers, host_bypassed_iff}
use zicade_rs.Win.Discovery.{
  host_of, without_port, resolve, new, is_path_start, host_bypassed, first_or, behind, before,
  bypass_entries,
}

pub data Host : Type 0 where
  named : Str → Host
  bracketed : Str → Host

-- The parts of an absolute URL; the tail is the path with all that follows it.
pub record Url : Type 0 where
  pub scheme : Str
  pub userinfo : Option Str
  pub host : Host
  pub port : Option Str
  pub tail : Str

abbrev pub host_text : Host → Str
host_text (named h) = h
host_text (bracketed h) = h

abbrev shown_host : Host → Str
shown_host (named h) = h
shown_host (bracketed h) = b'[' ∷ (h ++ (b']' ∷ []))

abbrev shown_port : Option Str → Str
shown_port none = []
shown_port (some p) = b':' ∷ p

abbrev shown_user : Option Str → Str → Str
shown_user none s = s
shown_user (some u) s = u ++ (b'@' ∷ s)

abbrev shown_place : Url → Str
shown_place u = shown_host u.host ++ shown_port u.port

abbrev pub shown : Url → Str
shown u = u.scheme ++ (text "://" ++ (shown_user u.userinfo (shown_place u) ++ u.tail))

abbrev is_host_end : ℕ → Bool
is_host_end c = is_path_start c || (c == b'@')

abbrev IsTail : Str → Type 0
IsTail [] = Unit
IsTail (c ∷ s) = is_path_start c ≡ true

abbrev IsHost : Host → Type 0
IsHost (named h) = Lacks (λ c. is_host_end c || (c == b':') || (c == b'[')) h
IsHost (bracketed h) = Lacks (λ c. is_host_end c || (c == b']')) h

abbrev IsPart : Option Str → (ℕ → Bool) → Type 0
IsPart none p = Unit
IsPart (some s) p = Lacks p s

-- No part has a character that ends it.
pub record IsUrl (u : Url) : Type 0 where
  pub scheme_ok : Lacks (λ c. c == b':') u.scheme
  pub userinfo_ok : IsPart u.userinfo is_path_start
  pub host_ok : IsHost u.host
  pub port_ok : IsPart u.port is_host_end
  pub tail_ok : IsTail u.tail

-- Lacking more characters is lacking fewer.
Lacks-imp :
    (p q : ℕ → Bool) (s : Str) → ((c : ℕ) → p c ≡ false → q c ≡ false) → Lacks p s → Lacks q s
Lacks-imp p q [] imp h = tt
Lacks-imp p q (c ∷ s) imp h = (imp c h.0, Lacks-imp p q s imp h.1)

after_scheme_lem :
    (s rest : Str)
    → Lacks (λ c. c == b':') s
    → after_first (text "://") (s ++ (text "://" ++ rest)) ≡ some rest
unfolding after_first strip_prefix
after_scheme_lem [] rest h = refl
after_scheme_lem (c ∷ s) rest h = ground (arith, after_scheme_lem s rest h.1)

authority_lem :
    (d a tail : Str)
    → Lacks is_path_start a
    → IsTail tail
    → first_or d (split_on is_path_start (a ++ tail)) ≡ a
authority_lem d a [] h t = rw (append-nil a, split_on-Lacks is_path_start a h)
authority_lem d a (c ∷ s) h t = rw (split_on-append is_path_start a c s h t)

userinfo_lem :
    (d place : Str) (user : Option Str)
    → Lacks (λ c. c == b'@') place
    → d ≡ shown_user user place
    → behind d (rsplit_once (λ c. c == b'@') (shown_user user place)) ≡ place
userinfo_lem d place none h e = rw (rsplit_once-Lacks (λ c. c == b'@') place h) e
userinfo_lem d place (some u) h e = rw (rsplit_once-append (λ c. c == b'@') u b'@' place h refl)

shown_host-Lacks : (h : Host) → IsHost h → Lacks is_host_end (shown_host h)
shown_host-Lacks (named h) ok = Lacks-imp _ is_host_end h (λ c e. ground arith) ok
shown_host-Lacks (bracketed h) ok = (
  refl,
  Lacks-append is_host_end h (b']' ∷ []) (Lacks-imp _ is_host_end h (λ c e. ground arith) ok)
      (refl, tt),
)

shown_port-Lacks : (p : Option Str) → IsPart p is_host_end → Lacks is_host_end (shown_port p)
shown_port-Lacks none ok = tt
shown_port-Lacks (some p) ok = (refl, ok)

without_port_named :
    (h : Str) (p : Option Str)
    → Lacks (λ c. is_host_end c || (c == b':') || (c == b'[')) h
    → before (h ++ shown_port p) (split_once (λ c. c == b':') (h ++ shown_port p)) ≡ h
without_port_named h none ok =
    rw
      (append-nil h, split_once-Lacks (λ c. c == b':') h (Lacks-imp _ _ h (λ c e. ground arith) ok))
without_port_named h (some p) ok =
    rw (split_once-append (λ c. c == b':') h b':' p (Lacks-imp _ _ h (λ c e. ground arith) ok) refl)

no_bracket :
    (h : Str) (p : Option Str)
    → Lacks (λ c. is_host_end c || (c == b':') || (c == b'[')) h
    → strip_prefix (text "[") (h ++ shown_port p) ≡ none
unfolding strip_prefix
no_bracket [] none ok = refl
no_bracket [] (some p) ok = refl
no_bracket (c ∷ h) p ok = ground arith

without_port_lem :
    (h : Host) (p : Option Str)
    → IsHost h
    → without_port (shown_host h ++ shown_port p) ≡ host_text h
unfolding without_port strip_prefix
without_port_lem (named h) p ok = rw (without_port, no_bracket h p ok) (without_port_named h p ok)
without_port_lem (bracketed h) p ok = rw (
  without_port,
  append_assoc h (b']' ∷ []) (shown_port p),
  split_once-append (λ c. c == b']') h b']' (shown_port p)
      (Lacks-imp _ _ h (λ c e. ground arith) ok) refl,
)

place-Lacks : (u : Url) → IsUrl u → Lacks is_host_end (shown_place u)
place-Lacks u ok =
    Lacks-append is_host_end (shown_host u.host) (shown_port u.port)
      (shown_host-Lacks u.host ok.host_ok) (shown_port-Lacks u.port ok.port_ok)

authority-Lacks :
    (user : Option Str) (place : Str)
    → IsPart user is_path_start
    → Lacks is_host_end place
    → Lacks is_path_start (shown_user user place)
authority-Lacks none place ok h = Lacks-imp is_host_end is_path_start place (λ c e. ground arith) h
authority-Lacks (some u) place ok h =
    Lacks-append is_path_start u (b'@' ∷ place) ok
      (refl, Lacks-imp is_host_end is_path_start place (λ c e. ground arith) h)

pub host_of_shown : (u : Url) → IsUrl u → host_of (shown u) ≡ to_ascii_lowercase (host_text u.host)
unfolding host_of
host_of_shown u ok =
    let place = shown_place u in
    let rest : Str = shown_user u.userinfo place ++ u.tail in
    let authority = shown_user u.userinfo place in
    rw (
      host_of,
      after_scheme_lem u.scheme rest ok.scheme_ok,
      authority_lem rest authority u.tail
          (authority-Lacks u.userinfo place ok.userinfo_ok (place-Lacks u ok)) ok.tail_ok,
      userinfo_lem authority place u.userinfo
          (Lacks-imp is_host_end _ place (λ c e. ground arith) (place-Lacks u ok)) refl,
      without_port_lem u.host u.port ok.host_ok,
    )

-- The answer for a URL: directly for a host that the list covers, what the setting parses to for any
-- other.
abbrev pub IsAnswer : Str → Option Str → Url → PacResult → Type 0
IsAnswer proxy bypass u r =
    ((r ≡ PacResult.direct)
      × Any (Covers (to_ascii_lowercase (host_text u.host))) (bypass_entries bypass))
    ⊎ ((r ≡ parse proxy)
        × ¬ Any (Covers (to_ascii_lowercase (host_text u.host))) (bypass_entries bypass))

-- The resolver of a proxy set by hand answers `Direct` for a URL whose host, in lower case, the list to
-- bypass covers, and for every other URL what the setting parses to, which is `Direct` too where no
-- usable proxy stands in it; for every URL whose parts lack the characters that end them, with or
-- without user, port and brackets.
pub resolve_shown :
    (proxy : Str) (bypass : Option Str) (u : Url)
    → IsUrl u
    → IsAnswer proxy bypass u (resolve (new proxy bypass) (shown u))
unfolding resolve new
resolve_shown proxy bypass u ok =
    let host = to_ascii_lowercase (host_text u.host) in
    let covered = host_bypassed_iff host (bypass_entries bypass) in
    elim (Bool-cases (host_bypassed host (bypass_entries bypass))) [
      | inl yes_it_is ↦ inl (rw (resolve, host_of_shown u ok, yes_it_is) refl, covered.0 yes_it_is)
      | inr is_not ↦
          inr (rw (resolve, host_of_shown u ok, is_not) refl, λ a. ground (arith, covered.1 a))
    ]
