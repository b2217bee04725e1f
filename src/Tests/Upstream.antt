-- ===== src/Tests/Upstream.antt =====
-- Handshakes, heads and tunnels over concrete sockets.
use zicade_rs.Prelude.{
  ◌≢◌, filter, arith, ℕ, ◌+◌, ◌≡◌, ◌≤◌, ◌↔◌, ◌⊎◌, ◌%◌, refl, ◌∷◌, ◌++◌, [], List, some, none, ok,
  err, Result, map, All, length, true, false,
}
use zicade_rs.Text.{
  split_once, digit_value, parse_digits, parse_uint, split_whitespace, is_empty, split_step,
  starts_with, ends_with, text, Str, split_on,
}
use zicade_rs.Auth.Handshake as Machine
use zicade_rs.Auth.Header.{AuthScheme}
use zicade_rs.Proxy.Driver.{AuthState, UpstreamAuth, Headers, legs, new_state, initial_header}
use zicade_rs.Proxy.Driver.Scheme.{Uses, legs-OneScheme}
use zicade_rs.Proxy.Wire.{
  header_line, header_lines, split_lines, write_all, await_response, parse_head, read_head_from,
  Input, byte, Stream, IoError, read_head, drain_body, Head,
}
use zicade_rs.Proxy.Wire.Head.{IsTaken, read_head-IsTaken}
use zicade_rs.Proxy.Wire.Drained.{IsRestOf, drain_body-total}
use zicade_rs.Proxy.Connect.{
  send_leg, handshake_legs, connect, Attempt, handshake, Failure, max_legs,
}
use zicade_rs.Proxy.Connect.Stale.{NoAnswer, connect-NoAnswer}
use zicade_rs.Proxy.Connect.Legs.{handshake-le-max_legs}
use zicade_rs.Proxy.Tunnel.{
  Written, upstream_to_client, Fate, Op, splice, settle, eof, Event, chunk, accepted, pump,
  PumpState,
}
use zicade_rs.Proxy.Tunnel.Close.{
  IsClean, IsWriteFailure, splice_iff, pump-whole_chunks, whole_chunks, taken_bytes, largest, total,
}
use zicade_rs.Tests.Data.{counting_step, shifting, ascii}

abbrev ntlm_challenge : Headers
ntlm_challenge = (text "proxy-authenticate", text "NTLM") ∷ []

abbrev negotiate_challenge : Headers
negotiate_challenge = (text "proxy-authenticate", text "Negotiate") ∷ []

abbrev two_challenges : List Headers
two_challenges = ntlm_challenge ∷ negotiate_challenge ∷ []

legs-OneScheme_example :
    (k : AuthScheme) × All
      (Uses shifting counting_step k)
      (legs shifting counting_step (AuthState.negotiate (Machine.new 0) none) two_challenges).0
legs-OneScheme_example = legs-OneScheme shifting counting_step (Machine.new 0) two_challenges

abbrev granted : Str
granted = text "HTTP/1.1 200 OK" ++ (13 ∷ 10 ∷ 13 ∷ 10 ∷ [])

abbrev closed_socket : Stream
closed_socket = record { input = []; write_results = []; written = [] }

abbrev granting_socket : Stream
granting_socket = record {
  input = map byte (granted ++ text "tunnel");
  write_results = [];
  written = [];
}

handshake-le-max_legs_example :
    (d : Result Failure (Unit {0}) × Stream) × (handshake ascii shifting counting_step
        granting_socket false
        (UpstreamAuth.negotiate 0)
        (text "a:443")
      ≡ some d)
    × (length d.1.written ≤ length granting_socket.written + max_legs)
handshake-le-max_legs_example =
    handshake-le-max_legs ascii shifting counting_step granting_socket false
      (UpstreamAuth.negotiate 0) (text "a:443")

-- The pool's socket was closed, and one dial failed.
abbrev failed_dial : Attempt
failed_dial = record { outcome = err (text "refused"); dials = 1 }

connect-NoAnswer_example : NoAnswer closed_socket ⊎ (failed_dial.dials ≡ 0)
unfolding connect handshake handshake_legs send_leg await_response write_all new_state
    initial_header
connect-NoAnswer_example =
    connect-NoAnswer ascii shifting counting_step closed_socket (err (text "refused"))
      UpstreamAuth.none (text "a:443") failed_dial refl

abbrev granted_head : Head
granted_head = (200, [])

read_head-IsTaken_example :
    (h : List ℕ) × IsTaken ascii [] h
      (map byte (granted ++ text "tunnel"))
      (map byte (text "tunnel"))
      granted_head
unfolding read_head read_head_from parse_head ends_with starts_with split_lines split_step
    header_lines header_line is_empty split_whitespace split_on filter parse_uint parse_digits
    digit_value split_once
read_head-IsTaken_example =
    read_head-IsTaken ascii (map byte (granted ++ text "tunnel")) (map byte (text "tunnel"))
      granted_head refl

abbrev chunked_headers : Headers
chunked_headers = (text "transfer-encoding", text "chunked") ∷ []

-- One chunk of a byte, the last chunk, and a byte of the next response.
abbrev chunked_input : List Input
chunked_input =
    map byte (text "1" ++ (13 ∷ 10 ∷ 120 ∷ 13 ∷ 10 ∷ text "0" ++ (13 ∷ 10 ∷ 13 ∷ 10 ∷ text "H")))

drain_body-total_example :
    (d : Result IoError (Unit {0}) × List Input) × (drain_body ascii chunked_headers chunked_input
      ≡ some d)
    × IsRestOf d.1 chunked_input
drain_body-total_example = drain_body-total ascii chunked_headers chunked_input

abbrev reset_after_response : Fate
reset_after_response = record {
  result = err (record { op = Op.read; message = text "reset" });
  in_grace = false;
}

splice_iff_example :
    IsClean (splice upstream_to_client (ok tt) reset_after_response)
    ↔ ((settle upstream_to_client (ok tt) reset_after_response).1 ≡ eof)
      × ¬ IsWriteFailure (settle upstream_to_client (ok tt) reset_after_response).0
splice_iff_example = splice_iff upstream_to_client (ok tt) reset_after_response

abbrev fresh_pump : PumpState
fresh_pump = record { counter = 0; relayed = []; shut_down = false }

abbrev upload : List Event
upload = chunk 5 accepted ∷ chunk 7 accepted ∷ chunk 4 (Written.stalled 3) ∷ []

pump-whole_chunks_example :
    ((pump upload fresh_pump).1.counter ≡ (0 + whole_chunks upload) % 18446744073709551616)
    × (total (pump upload fresh_pump).1.relayed ≡ 0 + whole_chunks upload)
    × (whole_chunks upload ≤ taken_bytes upload)
    × (taken_bytes upload ≤ whole_chunks upload + largest upload)
    × (((pump upload fresh_pump).0 ≢ some (ok tt)) ⊎ (taken_bytes upload ≡ whole_chunks upload))
    × (((pump upload fresh_pump).1.shut_down ≡ true) ↔ ((pump upload fresh_pump).0 ≡ some (ok tt)))
pump-whole_chunks_example = pump-whole_chunks upload fresh_pump refl (omega arith)
