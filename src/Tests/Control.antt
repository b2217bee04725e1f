-- ===== src/Tests/Control.antt =====
-- Edits applied to a small handle, a ring of two events, and a routing that is built.
use zicade_rs.Prelude.{map, ◌++◌, List, false, ℕ, ◌+◌, some, Option, [], ◌∷◌, ok, Result, ◌≡◌, refl}
use zicade_rs.Config.Model.{Config, default_config}
use zicade_rs.Config.Secrets.{keep_secrets_from}
use zicade_rs.Config.Validate.{ConfigError, ValidationCtx}
use zicade_rs.Control.{Control, default_status, apply}
use zicade_rs.Control.Apply.{Applies, apply-Applies}
use zicade_rs.Text.{Str, text, str_eq}
use zicade_rs.App.Start.{Event, look, edit, handle as handle_event}
use zicade_rs.Observe.{
  new_store, push, LogEvent, Pushes, no_pushes, Reach, here, next, counts, buffers, sends,
}
use zicade_rs.Observe.Layer.{
  TraceEvent, Entry, str, u64, debug, channel_layer, on_event, record_all, record_field, insert,
}
use zicade_rs.Observe.Layer.Fields.{Records, on_event-Records}
use zicade_rs.Observe.Interleaved.{IsInterleaved, Reach-IsInterleaved}
use zicade_rs.Ui.LogBuffer as LogBuffer

-- The disk counts the saves, the live state the runs of the hook.
abbrev count_save : Config → ℕ → Result ConfigError (Unit {0}) × ℕ
count_save config saves = (ok tt, saves + 1)

abbrev count_hook : Option (Config → ℕ → ℕ)
count_hook = some (λ config runs. runs + 1)

abbrev no_sspi : ValidationCtx
no_sspi = record { negotiate_supported = false }

abbrev handle : Control ℕ ℕ
handle = record { config = default_config; stored_status = default_status; disk = 0; live = 0 }

abbrev moved : Config
moved = record default_config { listen = record (default_config.listen) { port = 8081 } }

abbrev broken_edit : Config
broken_edit = record default_config { listen = record (default_config.listen) { port = 0 } }

apply-Applies_example :
    Applies no_sspi count_save count_hook
      (keep_secrets_from moved default_config)
      handle
      (apply no_sspi count_save count_hook moved handle)
apply-Applies_example = apply-Applies no_sspi count_save count_hook moved handle

-- A message is recorded twice, and a field.
abbrev logged : TraceEvent
logged = record {
  level = text "INFO";
  target = text "zicade";
  fields =
      (text "message", str (text "a"))
      ∷ (text "port", u64 8080)
      ∷ (text "message", debug (text "b"))
      ∷ [];
}

on_event-Records_example :
    (sent : LogEvent Entry) × ((on_event (some 5) logged (channel_layer 2)).sent
      ≡ (channel_layer 2).sent ++ (sent ∷ []))
    × Records logged sent.event
on_event-Records_example = on_event-Records (some 5) logged (channel_layer 2)

logged_message :
    map (λ e. e.event.message) (on_event (some 5) logged (channel_layer 2)).ring ≡ text "b" ∷ []
unfolding on_event record_all record_field push new_store insert str_eq
logged_message = refl

-- Two threads push to a ring of one: the first gets its number first, and is broadcast last.
abbrev first_event : LogEvent ℕ
first_event = record { seq = 1; event = 7 }

abbrev second_event : LogEvent ℕ
second_event = record { seq = 2; event = 8 }

abbrev both_stamped : Pushes ℕ
both_stamped = record {
  store = record (new_store 1) { seq = 2 };
  stamped = second_event ∷ first_event ∷ [];
  kept = [];
  buffered = [];
}

abbrev both_kept : Pushes ℕ
both_kept = record {
  store = record both_stamped.store { ring = second_event ∷ [] };
  stamped = [];
  kept = second_event ∷ first_event ∷ [];
  buffered = first_event ∷ second_event ∷ [];
}

abbrev both_sent : Pushes ℕ
both_sent = record both_kept {
  store = record both_kept.store { sent = second_event ∷ first_event ∷ [] };
  kept = [];
}

both_sent_reached : Reach (no_pushes 1) both_sent
unfolding new_store
both_sent_reached =
    next
      (next
        (next
          (next (next (next here (counts (no_pushes 1) 7)) (counts _ 8))
            (buffers both_stamped (second_event ∷ []) [] first_event refl))
          (buffers _ [] [] second_event refl))
        (sends both_kept [] (first_event ∷ []) second_event refl))
      (sends _ [] [] first_event refl)

Reach-IsInterleaved_example : IsInterleaved both_sent
Reach-IsInterleaved_example = Reach-IsInterleaved 1 both_sent_reached

-- A log page that is open then drops the event that comes late.
late_event_lost :
    (LogBuffer.push_all both_sent.store.sent (LogBuffer.new 5)).events ≡ second_event ∷ []
unfolding LogBuffer.push_all LogBuffer.push LogBuffer.new
late_event_lost = refl

-- Every address is read as itself, and bound on the port asked for.
abbrev read_ip : Str → Option Str
read_ip s = some s

abbrev bind_there : Str → ℕ → Result Str Str
bind_there host port = ok host

abbrev a_day : List Event
a_day = look [] ∷ edit moved [] ∷ edit broken_edit [] ∷ []

abbrev runs_thread : Config → Result Str (Unit {0})
runs_thread config = ok tt
