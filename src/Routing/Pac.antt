-- ===== src/Routing/Pac.antt =====
-- crates/zicade-routing/src/pac.rs: the first usable entry of a PAC or WinHTTP proxy string.
pub mod Render
use zicade_rs.Prelude.{
  [], ◌∷◌, none, some, Option, List, Bool, map_option, some, unwrap_or, ◌||◌, and_then,
  if◌then◌else◌, none, ◌==◌, ◌∷◌, Bool, List, Option, ℕ,
}
use zicade_rs.Text.{
  parse_uint, starts_with, split_whitespace, text, is_empty, str_eq, to_ascii_uppercase, trim,
  rsplit_once, split_on, Str,
}

pub data PacResult : Type 0 where
  direct : PacResult
  proxy : Str → ℕ → PacResult

abbrev pub u16_modulus : ℕ
u16_modulus = 65536

-- `port.trim().parse::<u16>()`, after the test on the host.
unfoldable pub addr_of : Str × Str → Option PacResult
addr_of (host, port) =
    if is_empty host then none else map_option (proxy host) (parse_uint 10 u16_modulus (trim port))

-- What follows the last `=`: `token.rsplit('=').next()`.
unfoldable pub after_scheme : Str → Str
after_scheme token = elim (rsplit_once (λ c. c == b'=') token) [
  | none ↦ token
  | some (scheme, addr) ↦ addr
]

unfoldable pub parse_addr : Str → Option PacResult
unfolding addr_of after_scheme
parse_addr token = and_then (rsplit_once (λ c. c == b':') (after_scheme token)) addr_of

abbrev pub first : List Str → Option Str
first [] = none
first (token ∷ rest) = some token

-- The result an entry gives from its first token and the others; `none` where the loop goes on.
unfoldable pub keyword_result : Str → List Str → Option PacResult
unfolding parse_addr
keyword_result keyword rest =
    let upper_case = to_ascii_uppercase keyword in
    if str_eq upper_case (text "DIRECT")
    then some direct
    else (if str_eq upper_case (text "PROXY")
        then and_then (first rest) parse_addr
        else (if starts_with (text "SOCKS") upper_case then none else parse_addr keyword))

abbrev pub tokens_result : List Str → Option PacResult
tokens_result [] = keyword_result [] []
tokens_result (keyword ∷ rest) = keyword_result keyword rest

unfoldable pub entry_result : Str → Option PacResult
unfolding keyword_result
entry_result entry =
    let trimmed = trim entry in
    if is_empty trimmed then none else tokens_result (split_whitespace trimmed)

-- The loop: the first entry that gives a result, `Direct` if none does.
unfoldable pub parse_entries : List Str → PacResult
unfolding entry_result
parse_entries [] = direct
parse_entries (entry ∷ rest) = unwrap_or (parse_entries rest) (entry_result entry)

abbrev pub is_separator : ℕ → Bool
is_separator c = (c == b';') || (c == 10)

unfoldable pub parse : Str → PacResult
unfolding parse_entries
parse raw = parse_entries (split_on is_separator raw)
