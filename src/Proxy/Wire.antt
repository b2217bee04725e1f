-- ===== src/Proxy/Wire.antt =====
-- crates/zicade-proxy/src/upstream/wire.rs: reading a response head and draining a body. A socket is
-- the bytes the upstream will have sent until it closes, or until a read fails, and the result of
-- each `write_all`; what was written is kept. `String::from_utf8_lossy` enters as `lossy`.
pub mod Head
pub mod Drained
use zicade_rs.Prelude.{
  zero, suc, ltb, ◌&&◌, ◌||◌, and_then, drop, if◌then◌else◌, map_option, ok_or, suc, unwrap_or,
  ◌==◌, ◌>>=◌, ℕ, ◌+◌, ◌-◌, Bool, true, false, Option, none, some, [], ◌∷◌, ◌++◌, List, Result, ok,
  err, length, find,
}
use zicade_rs.Text.{
  split_on, split_step, starts_with, Str, text, trim, to_ascii_lowercase, split_once,
  split_whitespace, parse_uint, is_empty, str_eq, ends_with,
}
use zicade_rs.Proxy.Driver.{Headers}
use zicade_rs.Auth.Handshake.{Bytes}

abbrev pub IoError : Type 0
IoError = Str

pub data Input : Type 0 where
  byte : ℕ → Input
  broken : IoError → Input

pub record Stream : Type 0 where
  pub input : List Input
  pub write_results : List (Option IoError)
  pub written : List Str

abbrev pub max_head_bytes : ℕ
max_head_bytes = 65536

abbrev pub max_drain_bytes : ℕ
max_drain_bytes = 1048576

abbrev pub usize_modulus : ℕ
usize_modulus = 18446744073709551616

abbrev pub Head : Type 0
Head = ℕ × Headers

-- The pieces of `text.split("\r\n")`.
unfoldable pub split_lines : Str → List Str
unfolding split_step
split_lines [] = [] ∷ []
split_lines (c ∷ []) = (c ∷ []) ∷ []
split_lines (c ∷ d ∷ s) =
    let rest = split_lines (d ∷ s) in
    let after = split_lines s in
    if (c == 13) && (d == 10) then [] ∷ after else split_step false c rest

unfoldable pub header_line : Str → Headers
header_line line = elim (split_once (λ c. c == b':') line) [
  | none ↦ []
  | some (k, v) ↦ (to_ascii_lowercase (trim k), trim v) ∷ []
]

unfoldable pub header_lines : List Str → Headers
unfolding header_line
header_lines [] = []
header_lines (line ∷ rest) = header_line line ++ header_lines rest

abbrev pub second : List Str → Option Str
second (a ∷ b ∷ rest) = some b
second _ = none

abbrev pub status_of : Str → ℕ
status_of line = unwrap_or 0 (and_then (second (split_whitespace line)) (parse_uint 10 65536))

abbrev pub head_of : List Str → Head
head_of [] = (0, [])
head_of (line ∷ rest) = (status_of line, header_lines rest)

unfoldable pub header : Str → Headers → Option Str
header name headers =
    map_option (λ (h : Str × Str). h.1) (find (λ (h : Str × Str). str_eq h.0 name) headers)

unfoldable pub content_length : Headers → Option ℕ
content_length headers =
    and_then (header (text "content-length") headers) (parse_uint 10 usize_modulus)

-- `s.contains(p)`.
unfoldable pub contains_text : Str → Str → Bool
contains_text p [] = starts_with p []
contains_text p (c ∷ s) = starts_with p (c ∷ s) || contains_text p s

unfoldable pub is_chunked : Headers → Bool
is_chunked headers = elim (header (text "transfer-encoding") headers) [
  | none ↦ false
  | some v ↦ contains_text (text "chunked") (to_ascii_lowercase v)
]

abbrev pub end_of_head : Str
end_of_head = 13 ∷ 10 ∷ 13 ∷ 10 ∷ []

abbrev pub too_large : IoError
too_large = text "upstream non-final response body too large"

-- `n` bytes in reads of any size: the end of the input or a failure stops it.
unfoldable pub skip : ℕ → List Input → Result IoError (Unit {0}) × List Input
skip zero input = (ok tt, input)
skip (suc n) [] = (err (text "upstream closed mid-body"), [])
skip (suc n) (broken e ∷ rest) = (err e, rest)
skip (suc n) (byte c ∷ rest) = skip n rest

unfoldable pub discard : ℕ → List Input → Result IoError (Unit {0}) × List Input
discard len input = if ltb max_drain_bytes len then (err too_large, input) else skip len input

-- The bytes of a line, `buf` being what was read of it.
unfoldable pub read_line_from : Bytes → List Input → Result IoError Bytes × List Input
read_line_from buf [] = (ok buf, [])
read_line_from buf (broken e ∷ rest) = (err e, rest)
read_line_from buf (byte c ∷ rest) =
    let more = read_line_from (buf ++ (c ∷ [])) rest in
    if c == 10
    then (ok (buf ++ (c ∷ [])), rest)
    else (if ltb max_head_bytes (length (buf ++ (c ∷ [])))
        then (err (text "chunk line too long"), rest)
        else more)

abbrev pub first_piece : List Str → Str
first_piece [] = []
first_piece (w ∷ ws) = w

abbrev pub size_field : Str → Str
size_field line = trim (first_piece (split_on (λ c. c == b';') (trim line)))

unfoldable pub chunk_size : Str → Result IoError ℕ
chunk_size line = ok_or (parse_uint 16 usize_modulus (size_field line)) (text "invalid chunk size")

abbrev pub Drain : Type 0
Drain = Option (Result IoError (Unit {0}) × List Input)

-- The line end after the last chunk is read, whatever it holds.
abbrev pub last_line : Result IoError Str × List Input → Result IoError (Unit {0}) × List Input
last_line (ok line, rest) = (ok tt, rest)
last_line (err e, rest) = (err e, rest)

-- The rest of a round: the first failure ends the loop where it happened.
abbrev pub after_chunk :
    Result IoError (Unit {0}) → List Input → Result IoError Str → List Input → Drain → Drain
after_chunk (err e) rest ending rest' further = some (err e, rest)
after_chunk (ok u) rest (err e) rest' further = some (err e, rest')
after_chunk (ok u) rest (ok line) rest' further = further

module _ (lossy : Bytes → Str) where
  unfoldable pub parse_head : Bytes → Head
  unfolding header_lines
  parse_head buf = head_of (split_lines (lossy buf))

  -- The loop of `read_head`, with what was read before in `buf`.
  unfoldable pub read_head_from : Bytes → List Input → Result IoError Head × List Input
  read_head_from buf [] = (err (text "upstream closed before response head completed"), [])
  read_head_from buf (broken e ∷ rest) = (err e, rest)
  read_head_from buf (byte c ∷ rest) =
      let more = read_head_from (buf ++ (c ∷ [])) rest in
      if ends_with end_of_head (buf ++ (c ∷ []))
      then (ok (parse_head (buf ++ (c ∷ []))), rest)
      else (if ltb max_head_bytes (length (buf ++ (c ∷ [])))
          then (err (text "upstream response head too large"), rest)
          else more)

  unfoldable pub read_head : List Input → Result IoError Head × List Input
  read_head input = read_head_from [] input

  unfoldable pub read_line : List Input → Result IoError Str × List Input
  read_line input = let (r, rest) = read_line_from [] input in (r >>= (λ buf. ok (lossy buf)), rest)

  -- The loop, one round of fuel for each chunk; `none` if the fuel does not reach.
  unfoldable pub drain_chunks : ℕ → ℕ → List Input → Drain
  drain_chunks zero total input = none
  drain_chunks (suc f) total input =
      let (line, rest) = read_line input in
      elim (line >>= chunk_size) [
        | err e ↦ some (err e, rest)
        | ok zero ↦ some (last_line (read_line rest))
        | ok (suc n) ↦
            let (skipped, rest') = discard (suc n) rest in
            let (ending, rest'') = read_line rest' in
            let further = drain_chunks f (total + suc n) rest'' in
            if ltb max_drain_bytes (total + suc n)
            then some (err too_large, rest)
            else after_chunk skipped rest' ending rest'' further
      ]

  -- A round takes a byte at least, so the input's length and one more are enough.
  unfoldable pub drain_chunked : List Input → Drain
  drain_chunked input = drain_chunks (suc (length input)) 0 input

  abbrev pub drain_unless_sized : Bool → Headers → List Input → Drain
  drain_unless_sized true headers input = drain_chunked input
  drain_unless_sized false headers input = some (ok tt, input)

  unfoldable pub drain_body : Headers → List Input → Drain
  drain_body headers input = elim (content_length headers) [
    | some len ↦ some (discard len input)
    | none ↦ drain_unless_sized (is_chunked headers) headers input
  ]

-- Bytes waiting are left in place; a socket that closed or failed has died.
unfoldable pub await_response : List Input → Result IoError (Unit {0})
await_response [] = err (text "upstream closed before responding")
await_response (broken e ∷ rest) = err e
await_response (byte c ∷ rest) = ok tt

abbrev pub write_outcome : List (Option IoError) → Result IoError (Unit {0})
write_outcome [] = ok tt
write_outcome (none ∷ rest) = ok tt
write_outcome (some e ∷ rest) = err e

unfoldable pub write_all : Str → Stream → Result IoError (Unit {0}) × Stream
write_all bytes s = (
  write_outcome s.write_results,
  record s { write_results = drop 1 s.write_results; written = s.written ++ (bytes ∷ []) },
)
