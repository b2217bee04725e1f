-- ===== src/Proxy/Tunnel.antt =====
-- crates/zicade-proxy/src/tunnel.rs: the splice of a tunnel. The sockets enter as what each read and
-- write of a direction gives; who settles first and what the other direction then comes to are
-- arguments of the splice. A failing operation is one of the two tags that the source uses.
pub mod Close
use zicade_rs.Prelude.{
  if◌then◌else◌, ℕ, ◌+◌, ◌%◌, Bool, true, false, Option, some, [], ◌∷◌, ◌++◌, List, Result, ok, err,
}
use zicade_rs.Text.{decimal, Str, text}

pub data Direction : Type 0 where
  client_to_upstream upstream_to_client : Direction

pub data Op : Type 0 where
  read write : Op

pub data Endpoint : Type 0 where
  client upstream : Endpoint

-- `message` is the display of the `io::Error`.
pub record PumpError : Type 0 where
  pub op : Op
  pub message : Str

pub data Wait : Type 0 where
  full grace none : Wait

pub data Outcome : Type 0 where
  eof dropped : Outcome
  failed : PumpError → Outcome

abbrev pub PumpResult : Type 0
PumpResult = Result PumpError (Unit {0})

unfoldable pub who_reset : Direction → Op → Endpoint
who_reset client_to_upstream read = client
who_reset client_to_upstream write = upstream
who_reset upstream_to_client read = upstream
who_reset upstream_to_client write = client

abbrev pub wait_after : Endpoint → Wait
wait_after client = Wait.none
wait_after upstream = Wait.grace

unfoldable pub wait_for : PumpResult → Direction → Wait
unfolding who_reset
wait_for (ok u) dir = Wait.full
wait_for (err e) dir = wait_after (who_reset dir e.op)

unfoldable pub from_res : PumpResult → Outcome
from_res (ok u) = eof
from_res (err e) = failed e

-- What a direction comes to when it is awaited, and whether it does within the grace.
pub record Fate : Type 0 where
  pub result : PumpResult
  pub in_grace : Bool

unfoldable pub drain_other : Wait → Fate → Outcome
unfolding from_res
drain_other Wait.full other = from_res other.result
drain_other Wait.grace other = if other.in_grace then from_res other.result else dropped
drain_other Wait.none other = dropped

-- The outcomes of upload and download, when one direction settles first.
unfoldable pub settle : Direction → PumpResult → Fate → Outcome × Outcome
unfolding from_res wait_for drain_other
settle client_to_upstream r other = (from_res r, drain_other (wait_for r client_to_upstream) other)
settle upstream_to_client r other = (drain_other (wait_for r upstream_to_client) other, from_res r)

abbrev pub is_write : Op → Bool
is_write write = true
is_write read = false

-- The arms after the first one, for an upload that did not fail in a write.
abbrev pub unfinished : Outcome → Outcome → Option (PumpError × Direction)
unfinished up eof = Option.none
unfinished up (failed e) = some (e, upstream_to_client)
unfinished (failed e) dropped = some (e, client_to_upstream)
unfinished eof dropped = Option.none
unfinished dropped dropped = Option.none

unfoldable pub real_failure : Outcome → Outcome → Option (PumpError × Direction)
real_failure (failed e) down =
    if is_write e.op then some (e, client_to_upstream) else unfinished (failed e) down
real_failure eof down = unfinished eof down
real_failure dropped down = unfinished dropped down

abbrev pub endpoint_name : Endpoint → Str
endpoint_name client = text "client"
endpoint_name upstream = text "upstream"

-- The reason that `tracked.fail` gets with the error that is returned, or a clean close.
unfoldable pub close : Outcome → Outcome → Result (Str × Str) (Unit {0})
unfolding real_failure who_reset
close up down = elim (real_failure up down) [
  | Option.none ↦ ok tt
  | some (e, dir) ↦
      err
        (endpoint_name (who_reset dir e.op) ++ (text " reset the tunnel: " ++ e.message), e.message)
]

unfoldable pub splice : Direction → PumpResult → Fate → Result (Str × Str) (Unit {0})
splice first r other = let (up, down) = settle first r other in close up down

-- What `write_all` of the chunk comes to. One that stalls is given up after `write_stall_seconds`, and
-- one that fails ends there; either may have passed on a part of the chunk, of as many bytes.
pub data Written : Type 0 where
  accepted : Written
  stalled : ℕ → Written
  refused : ℕ → Str → Written

-- One read of the source, and for a chunk of `n` bytes what its write gives.
pub data Event : Type 0 where
  end_of_file : Event
  read_failed : Str → Event
  chunk : ℕ → Written → Event

abbrev pub write_stall_seconds : ℕ
write_stall_seconds = 60

abbrev pub u64_modulus : ℕ
u64_modulus = 18446744073709551616

-- The counter, what was passed to `relayed` so far, and whether the sink was half-closed.
pub record PumpState : Type 0 where
  pub counter : ℕ
  pub relayed : List ℕ
  pub shut_down : Bool

abbrev pub stall_message : Str
stall_message =
    text "write stalled for " ++ (decimal write_stall_seconds ++ text "s (peer stopped consuming)")

abbrev pub count_chunk : ℕ → PumpState → PumpState
count_chunk n s = record s { counter = (s.counter + n) % u64_modulus; relayed = n ∷ s.relayed }

abbrev pub pump_error : Op → Str → PumpResult
pump_error op message = err (record { op = op; message = message })

-- The loop, over the events of the two sockets; `none` while neither of them has ended. A read of
-- no bytes is the end of the file.
unfoldable pub pump : List Event → PumpState → Option PumpResult × PumpState
pump [] s = (Option.none, s)
pump (end_of_file ∷ rest) s = (some (ok tt), record s { shut_down = true })
pump (read_failed why ∷ rest) s = (some (pump_error read why), s)
pump (chunk n (stalled part) ∷ rest) s = (some (pump_error write stall_message), s)
pump (chunk n (refused part why) ∷ rest) s = (some (pump_error write why), s)
pump (chunk n accepted ∷ rest) s = pump rest (count_chunk n s)
