-- ===== src/Ui/Views/Connections.antt =====
-- crates/zicade-ui/src/views/connections.rs, and the part of overview/mod.rs that lists the connections
-- in flight. `format_bytes` is floating-point formatting, `per_second` as in the rates.
use zicade_rs.Prelude.{
  ℕ, ◌||◌, Bool, true, false, Option, none, some, List, [], ◌∷◌, ◌++◌, filter, length, zero, suc,
}
use zicade_rs.Text.{Str, text, decimal, trim}
use zicade_rs.Proxy.Tracker.{
  ConnectionSnapshot, ConnectionState, ConnectionKind, connecting, relaying, closed, failed, tunnel,
  http,
}
use zicade_rs.Ui.ConnectionRates.{ConnectionRates, update, nothing}
use zicade_rs.Ui.Views.{contains_str, is_empty}

-- `in_flight` and `failures` are the source's `Open` and `Failed`.
pub data Filter : Type 0 where
  all in_flight failures : Filter

abbrev pub live_state : ConnectionState → Bool
live_state connecting = true
live_state relaying = true
live_state closed = false
live_state (failed reason) = false

unfoldable pub is_live : ConnectionSnapshot → Bool
is_live c = live_state c.state

abbrev pub failure_of : ConnectionState → Option Str
failure_of (failed reason) = some reason
failure_of connecting = none
failure_of relaying = none
failure_of closed = none

unfoldable pub failure : ConnectionSnapshot → Option Str
failure c = failure_of c.state

abbrev pub is_failed : ConnectionState → Bool
is_failed (failed reason) = true
is_failed connecting = false
is_failed relaying = false
is_failed closed = false

unfoldable pub admits : Filter → ConnectionSnapshot → Bool
unfolding is_live
admits all c = true
admits in_flight c = is_live c
admits failures c = is_failed c.state

unfoldable pub found : (Str → Str) → Str → ConnectionSnapshot → Bool
found lower needle c =
    is_empty needle || (contains_str needle (lower c.target) || contains_str needle (lower c.route))

unfoldable pub kind_label : ConnectionKind → Str
kind_label tunnel = text "HTTPS"
kind_label (http method (some status)) = method ++ (text " " ++ decimal status)
kind_label (http method none) = method

abbrev pub state_text : ConnectionState → Str
state_text connecting = text "Connecting"
state_text relaying = text "Open"
state_text closed = text "Closed"
state_text (failed reason) = text "Failed: " ++ reason

unfoldable pub describe : (ℕ → Str) → ConnectionSnapshot → Str
unfolding kind_label
describe format_bytes c =
    state_text c.state
    ++ (text ", "
        ++ (kind_label c.kind
            ++ (text " "
                ++ (c.target
                    ++ (text " via "
                        ++ (c.route
                            ++ (text ", up "
                                ++ (format_bytes c.bytes_up
                                    ++ (text ", down " ++ format_bytes c.bytes_down)))))))))

pub record ConnectionsView (F : Type 0) : Type 0 where
  pub all : List ConnectionSnapshot
  pub rates : ConnectionRates F
  pub filter_by : Filter

module _ {F : Type 0} (per_second : ℕ → ℕ → F) where
  -- `connections` is what the control lists at the time `at`.
  unfoldable pub refresh : List ConnectionSnapshot → ℕ → ConnectionsView F → ConnectionsView F
  refresh connections at v = record v {
    all = connections;
    rates = update per_second connections at v.rates;
  }

  unfoldable pub new : List ConnectionSnapshot → ℕ → ConnectionsView F
  unfolding refresh
  new connections at =
      refresh connections at (record { all = []; rates = nothing; filter_by = all })

unfoldable pub shown :
    {F : Type 0} → (Str → Str) → Str → ConnectionsView F → List ConnectionSnapshot
unfolding admits found
shown lower search v =
    filter (found lower (lower (trim search))) (filter (admits v.filter_by) v.all)

abbrev pub first_of : {A : Type 0} → ℕ → List A → List A
first_of zero xs = []
first_of (suc n) [] = []
first_of (suc n) (x ∷ xs) = x ∷ first_of n xs

-- How many are in flight, and those of them that the overview lists.
unfoldable pub in_flight_of : ℕ → List ConnectionSnapshot → ℕ × List ConnectionSnapshot
unfolding is_live
in_flight_of recent connections =
    let open_ones = filter is_live connections in (length open_ones, first_of recent open_ones)
