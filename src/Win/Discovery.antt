-- ===== src/Win/Discovery.antt =====
-- crates/zicade-win/src/winhttp/discovery.rs: how the user's proxy settings become a way of resolving,
-- and the resolver of a static proxy with its list of hosts to bypass.
pub mod Wildcard
pub mod Urls
use zicade_rs.Prelude.{
  ℕ, Bool, true, false, not, ◌||◌, ◌==◌, Option, none, some, List, [], ◌∷◌, map, any, filter,
  if◌then◌else◌, unwrap_or,
}
use zicade_rs.Text.{
  Str, text, trim, is_empty, str_eq, contains, split_on, split_once, rsplit_once, strip_prefix,
  ends_with, after_first, to_ascii_lowercase,
}
use zicade_rs.Routing.Pac.{PacResult, parse}

pub record IeProxyConfig : Type 0 where
  pub auto_config_url : Option Str
  pub auto_detect : Bool
  pub proxy : Option Str
  pub bypass : Option Str

abbrev pub empty_settings : IeProxyConfig
empty_settings = record { auto_config_url = none; auto_detect = false; proxy = none; bypass = none }

pub data Strategy : Type 0 where
  config_url : Str → Strategy
  wpad : Strategy
  static_proxy : Str → Option Str → Strategy
  direct : Strategy

-- An optional setting that is there and not blank.
abbrev pub set_text : Option Str → Option Str
set_text none = none
set_text (some s) = if is_empty (trim s) then none else some s

abbrev static_or_direct : Option Str → Option Str → Strategy
static_or_direct none bypass = direct
static_or_direct (some proxy) bypass = static_proxy proxy bypass

abbrev after_url : Option Str → IeProxyConfig → Strategy
after_url (some url) cfg = config_url url
after_url none cfg =
    if cfg.auto_detect then wpad else static_or_direct (set_text cfg.proxy) cfg.bypass

unfoldable pub select_strategy : IeProxyConfig → Strategy
select_strategy cfg = after_url (set_text cfg.auto_config_url) cfg

pub record StaticResolver : Type 0 where
  pub proxy : PacResult
  pub bypass : List Str

abbrev pub is_list_separator : ℕ → Bool
is_list_separator c = (c == b';') || (c == 32) || (c == 9) || (c == 10) || (c == 13)

abbrev pub bypass_entries : Option Str → List Str
bypass_entries none = []
bypass_entries (some list) =
    map to_ascii_lowercase
      (filter (λ e. not (is_empty e)) (map trim (split_on is_list_separator list)))

unfoldable pub new : Str → Option Str → StaticResolver
new proxy bypass = record { proxy = parse proxy; bypass = bypass_entries bypass }

abbrev pub is_path_start : ℕ → Bool
is_path_start c = (c == b'/') || (c == b'?') || (c == b'#')

-- The first piece of a split, which every split has.
abbrev pub first_or : Str → List Str → Str
first_or d [] = d
first_or d (piece ∷ pieces) = piece

abbrev pub behind : Str → Option (Str × Str) → Str
behind d none = d
behind d (some (before, after)) = after

abbrev pub before : Str → Option (Str × Str) → Str
before d none = d
before d (some (front, after)) = front

-- The host without its port; the brackets of an IPv6 address go.
unfoldable pub without_port : Str → Str
without_port host_port = elim (strip_prefix (text "[") host_port) [
  | some stripped ↦ before host_port (split_once (λ c. c == b']') stripped)
  | none ↦ before host_port (split_once (λ c. c == b':') host_port)
]

unfoldable pub host_of : Str → Str
unfolding without_port
host_of url =
    let after_scheme = unwrap_or url (after_first (text "://") url) in
    let authority = first_or after_scheme (split_on is_path_start after_scheme) in
    let host_port = behind authority (rsplit_once (λ c. c == b'@') authority) in
    to_ascii_lowercase (without_port host_port)

-- The loop over the segments behind the first star.
unfoldable pub match_parts : List Str → Str → Bool
match_parts [] rest = true
match_parts (last ∷ []) rest = ends_with last rest
match_parts (part ∷ next ∷ parts) rest =
    if is_empty part then match_parts (next ∷ parts) rest else elim (after_first part rest) [
      | none ↦ false
      | some behind_part ↦ match_parts (next ∷ parts) behind_part
    ]

abbrev match_pieces : List Str → Str → Bool
match_pieces [] t = true
match_pieces (prefix ∷ parts) t = elim (strip_prefix prefix t) [
  | none ↦ false
  | some rest ↦ match_parts parts rest
]

unfoldable pub wildcard_match : Str → Str → Bool
unfolding match_parts
wildcard_match pattern t =
    if not (contains b'*' pattern)
    then str_eq pattern t
    else match_pieces (split_on (λ c. c == b'*') pattern) t

abbrev pub entry_matches : Str → Str → Bool
entry_matches host entry =
    if str_eq entry (text "<local>") then not (contains b'.' host) else wildcard_match entry host

unfoldable pub host_bypassed : Str → List Str → Bool
unfolding wildcard_match
host_bypassed host entries = any (entry_matches host) entries

unfoldable pub resolve : StaticResolver → Str → PacResult
unfolding host_of host_bypassed
resolve r url = if host_bypassed (host_of url) r.bypass then PacResult.direct else r.proxy
