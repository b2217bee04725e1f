-- ===== src/Routing/Pac/Render.antt =====
-- A PAC string put together from entries, and the entry that decides it.
use mathlib.Core.List.{append_assoc}
use zicade_rs.Routing.Pac.{
  PacResult, direct, proxy, is_separator, u16_modulus, parse_entries, entry_result, keyword_result,
  parse_addr, parse, after_scheme, addr_of,
}
use zicade_rs.Text.{split_on-append, split_on, split_whitespace}
use zicade_rs.Prelude.{
  any, All, unwrap_or, ◌∙◌, sym, ap, arith, ◌≡◌, ◌==◌, ◌++◌, ◌<◌, ◌≢◌, [], ◌∷◌, none, some, Option,
  List, Bool, false, inr, refl, ℕ,
}
use zicade_rs.Text.{
  rsplit_once-append, rsplit_once-Lacks, trim_end, trim_graphic, trim_start, trim-append,
  decimal-AllDigits, AllDigits-IsGraphic, upper, Lacks-append, to_ascii_uppercase, AllDigits,
  is_empty, is_whitespace, starts_with, str_eq, trim, Lacks, IsGraphic, decimal, Str, text,
  AllDigits-Lacks, parse_uint-decimal, split_whitespace-append, split_whitespace_word,
}

-- The entries of a PAC result: `SOCKS` with an address, and a bare address as WinHTTP writes it.
pub data Entry : Type 0 where
  blank direct_entry : Entry
  proxy_entry : Str → ℕ → Entry
  bare_entry : Str → ℕ → Entry
  socks_entry : Str → Entry

abbrev pub address : Str → ℕ → Str
address host port = host ++ (b':' ∷ decimal port)

abbrev pub render_entry : Entry → Str
render_entry blank = []
render_entry direct_entry = text "DIRECT"
render_entry (proxy_entry host port) = text "PROXY " ++ address host port
render_entry (bare_entry host port) = address host port
render_entry (socks_entry host) = text "SOCKS " ++ host

-- Each entry is followed by a semicolon and a space, as browsers write them.
abbrev pub render : List Entry → Str
render [] = []
render (e ∷ es) = render_entry e ++ (b';' ∷ 32 ∷ render es)

abbrev pub entry_decides : Entry → Option PacResult
entry_decides blank = none
entry_decides direct_entry = some direct
entry_decides (proxy_entry host port) = some (proxy host port)
entry_decides (bare_entry host port) = some (proxy host port)
entry_decides (socks_entry host) = none

-- The first entry that names a proxy or `DIRECT` decides, and `DIRECT` if there is none.
abbrev pub first_decision : List Entry → PacResult
first_decision [] = direct
first_decision (e ∷ es) = unwrap_or (first_decision es) (entry_decides e)

pub record IsHost (host : Str) : Type 0 where
  pub not_empty : host ≢ []
  pub graphic : IsGraphic host
  pub one_entry : Lacks is_separator host
  pub no_scheme : Lacks (λ c. c == b'=') host

abbrev pub IsEntry : Entry → Type 0
IsEntry blank = Unit {0}
IsEntry direct_entry = Unit {0}
IsEntry (proxy_entry host port) = IsHost host × (port < u16_modulus)
IsEntry (bare_entry host port) =
    IsHost host
    × (port < u16_modulus)
    × (starts_with (text "SOCKS") (to_ascii_uppercase host) ≡ false)
IsEntry (socks_entry host) = IsHost host

Lacks-test : (p : ℕ → Bool) (s : Str) → any p s ≡ false → Lacks p s
unfolding any
Lacks-test p [] h = tt
Lacks-test p (c ∷ s) h = ground (arith, Lacks-test p s)

-- Addresses are one word without separators.
digits_separator : (s : Str) → AllDigits s → Lacks is_separator s
digits_separator [] h = tt
digits_separator (c ∷ s) h = (ground arith, digits_separator s h.1)

address-IsGraphic : (host : Str) (port : ℕ) → IsHost host → IsGraphic (address host port)
unfolding is_whitespace
address-IsGraphic host port h =
    Lacks-append is_whitespace host (b':' ∷ decimal port) h.graphic
      (refl, AllDigits-IsGraphic (decimal port) (decimal-AllDigits port))

address_separator : (host : Str) (port : ℕ) → IsHost host → Lacks is_separator (address host port)
address_separator host port h =
    Lacks-append is_separator host (b':' ∷ decimal port) h.one_entry
      (refl, digits_separator (decimal port) (decimal-AllDigits port))

address-ne-nil : (host : Str) (port : ℕ) → address host port ≢ []
address-ne-nil [] port = λ h. cc
address-ne-nil (c ∷ host) port = λ h. cc

addr_of_lem :
    (host : Str) (port : ℕ)
    → IsHost host
    → port < u16_modulus
    → addr_of (host, decimal port) ≡ some (proxy host port)
unfolding addr_of is_empty
addr_of_lem [] port h k = absurd (h.not_empty refl)
addr_of_lem (c ∷ host) port h k = rw (
  trim_graphic (decimal port) (AllDigits-IsGraphic (decimal port) (decimal-AllDigits port)),
  parse_uint-decimal u16_modulus port k,
)

after_scheme_lem :
    (host : Str) (port : ℕ) → IsHost host → after_scheme (address host port) ≡ address host port
unfolding after_scheme
after_scheme_lem host port h = rw (
  after_scheme,
  rsplit_once-Lacks (λ c. c == b'=') (address host port)
      (Lacks-append (λ c. c == b'=') host (b':' ∷ decimal port) h.no_scheme
        (refl, AllDigits-Lacks (decimal port) b'=' (decimal-AllDigits port) (inr (omega arith)))),
)

parse_addr-address :
    (host : Str) (port : ℕ)
    → IsHost host
    → port < u16_modulus
    → parse_addr (address host port) ≡ some (proxy host port)
unfolding parse_addr
parse_addr-address host port h k = rw (
  after_scheme_lem host port h,
  rsplit_once-append (λ c. c == b':') host b':' (decimal port)
      (AllDigits-Lacks (decimal port) b':' (decimal-AllDigits port) (inr (omega arith))) refl,
  addr_of_lem host port h k,
)

-- An address is no keyword, since it has a colon, and begins like one only if its host does.
upper_colon : (c : ℕ) → (c == b':') ≡ false → (b':' == c) ≡ false
upper_colon c h = ground arith

address_no_word :
    (w host : Str) (port : ℕ)
    → Lacks (λ c. c == b':') w
    → str_eq (to_ascii_uppercase (address host port)) w ≡ false
unfolding str_eq to_ascii_uppercase upper
address_no_word [] [] port h = refl
address_no_word [] (c ∷ host) port h = refl
address_no_word (a ∷ w) [] port h = rw (upper_colon a h.0)
address_no_word (a ∷ w) (c ∷ host) port h = rw (address_no_word w host port h.1) (ground arith)

address_prefix :
    (w host : Str) (port : ℕ)
    → Lacks (λ c. c == b':') w
    → starts_with w (to_ascii_uppercase (address host port))
      ≡ starts_with w (to_ascii_uppercase host)
unfolding starts_with to_ascii_uppercase upper
address_prefix [] host port h = refl
address_prefix (a ∷ w) [] port h = rw h.0
address_prefix (a ∷ w) (c ∷ host) port h = rw (address_prefix w host port h.1)

is_empty-false : (s : Str) → s ≢ [] → is_empty s ≡ false
unfolding is_empty
is_empty-false [] h = absurd (h refl)
is_empty-false (c ∷ s) h = refl

trim_word :
    (c : ℕ) (w e : Str)
    → IsGraphic (c ∷ w)
    → e ≢ []
    → IsGraphic e
    → trim (c ∷ (w ++ 32 ∷ e)) ≡ c ∷ (w ++ 32 ∷ e)
trim_word c w e g ne k =
    ap (λ s. trim (c ∷ s)) (sym (append_assoc w (32 ∷ []) e))
    ∙ trim-append c (w ++ 32 ∷ []) e g.0 ne k
    ∙ ap (λ s. c ∷ s) (append_assoc w (32 ∷ []) e)

proxy_keyword : (a : Str) → keyword_result (text "PROXY") (a ∷ []) ≡ parse_addr a
unfolding keyword_result str_eq to_ascii_uppercase
proxy_keyword a = refl

socks_keyword : (a : Str) → keyword_result (text "SOCKS") (a ∷ []) ≡ none
unfolding keyword_result str_eq to_ascii_uppercase starts_with
socks_keyword a = refl

-- The space after a semicolon is trimmed.
entry_result_space : (s : Str) → entry_result (32 ∷ s) ≡ entry_result s
unfolding entry_result trim trim_start is_whitespace
entry_result_space s = refl

-- What each entry gives.
bare_result :
    (host : Str) (port : ℕ)
    → IsEntry (bare_entry host port)
    → entry_result (address host port) ≡ some (proxy host port)
unfolding entry_result keyword_result any
bare_result host port (h, k, no_socks) = rw (
  trim_graphic (address host port) (address-IsGraphic host port h),
  is_empty-false (address host port) (address-ne-nil host port),
  split_whitespace_word (address host port) (address-ne-nil host port)
      (address-IsGraphic host port h),
  address_no_word (text "DIRECT") host port (Lacks-test (λ c. c == b':') (text "DIRECT") refl),
  address_no_word (text "PROXY") host port (Lacks-test (λ c. c == b':') (text "PROXY") refl),
  address_prefix (text "SOCKS") host port (Lacks-test (λ c. c == b':') (text "SOCKS") refl),
  no_socks,
  parse_addr-address host port h k,
)

word_result :
    (c : ℕ) (w e : Str)
    → IsGraphic (c ∷ w)
    → e ≢ []
    → IsGraphic e
    → entry_result (c ∷ (w ++ 32 ∷ e)) ≡ keyword_result (c ∷ w) (e ∷ [])
unfolding entry_result is_empty str_eq
word_result c w e g ne k = rw (
  trim_word c w e g ne k,
  split_whitespace-append (c ∷ w) e (λ h. cc) g,
  split_whitespace_word e ne k,
)

entry_result-render : (e : Entry) → IsEntry e → entry_result (render_entry e) ≡ entry_decides e
unfolding is_whitespace any str_eq to_ascii_uppercase
entry_result-render blank h = unfold entry_result is_empty trim trim_end trim_start in refl
entry_result-render direct_entry h =
    unfold entry_result is_empty trim trim_end trim_start keyword_result split_whitespace in refl
entry_result-render (proxy_entry host port) (h, k) =
    word_result b'P' (text "ROXY") (address host port)
      (Lacks-test is_whitespace (text "PROXY") refl) (address-ne-nil host port)
      (address-IsGraphic host port h)
    ∙ proxy_keyword (address host port)
    ∙ parse_addr-address host port h k
entry_result-render (bare_entry host port) h = bare_result host port h
entry_result-render (socks_entry host) h =
    word_result b'S' (text "OCKS") host (Lacks-test is_whitespace (text "SOCKS") refl) h.not_empty
      h.graphic
    ∙ socks_keyword host

render_entry_separator : (e : Entry) → IsEntry e → Lacks is_separator (render_entry e)
unfolding any
render_entry_separator blank h = tt
render_entry_separator direct_entry h = Lacks-test is_separator (text "DIRECT") refl
render_entry_separator (proxy_entry host port) (h, k) =
    Lacks-append is_separator (text "PROXY ") (address host port)
      (Lacks-test is_separator (text "PROXY ") refl) (address_separator host port h)
render_entry_separator (bare_entry host port) (h, k, no_socks) = address_separator host port h
render_entry_separator (socks_entry host) h =
    Lacks-append is_separator (text "SOCKS ") host (Lacks-test is_separator (text "SOCKS ") refl)
      h.one_entry

parse_entries_after_space :
    (es : List Entry)
    → All IsEntry es
    → parse_entries (split_on is_separator (32 ∷ render es)) ≡ first_decision es
unfolding parse_entries
parse_entries_after_space [] h =
    unfold split_on entry_result is_empty trim trim_end trim_start is_whitespace in refl
parse_entries_after_space (e ∷ es) (h, k) = rw (
  split_on-append is_separator (32 ∷ render_entry e) b';' (32 ∷ render es)
      (refl, render_entry_separator e h) refl,
  entry_result_space (render_entry e),
  entry_result-render e h,
  parse_entries_after_space es k,
)

-- Parsing a list of entries gives the first decision that one of them makes: blank and SOCKS
-- entries are passed over, `DIRECT` ends the search, and with no decision the result is `DIRECT`.
-- It holds for hosts that are one word without `;` and `=`, ports below 2^16, and bare hosts that do
-- not begin with SOCKS.
pub parse-render : (es : List Entry) → All IsEntry es → parse (render es) ≡ first_decision es
unfolding parse parse_entries
parse-render [] h =
    unfold split_on entry_result is_empty trim trim_end trim_start is_whitespace in refl
parse-render (e ∷ es) (h, k) = rw (
  split_on-append is_separator (render_entry e) b';' (32 ∷ render es) (render_entry_separator e h)
      refl,
  entry_result-render e h,
  parse_entries_after_space es k,
)
