-- ===== src/Tests/Tracker.antt =====
-- A tracker with two connections.
use zicade_rs.Prelude.{arith, ◌%◌, ◌≡◌, ◌∷◌, [], List, none}
use zicade_rs.Text.{text}
use zicade_rs.Proxy.Tracker.{
  Call, starts, calls, drops, add_up, add_down, fail, new, run, start, close, tunnel,
  ConnectionSnapshot, push_history, u64_modulus, set_open,
}
use zicade_rs.Proxy.Tracker.Outcome.{
  connection_outcome, calls_on, final_state, first_failure, up_bytes, down_bytes,
}
use zicade_rs.Proxy.Tracker.Invariant.{IsBook, new-IsBook, run-IsBook}

abbrev two_connections : List Call
two_connections =
    starts tunnel (text "a:443") (text "direct") none 0 1
    ∷ starts tunnel (text "b:443") (text "direct") none 0 2
    ∷ calls 1 (add_up 5)
    ∷ calls 2 (fail (text "reset"))
    ∷ drops 2 9
    ∷ []

run-IsBook_example : IsBook (run new two_connections)
run-IsBook_example =
    run-IsBook new two_connections new-IsBook
      (record { ids = omega arith; sent = omega arith; received = omega arith })

abbrev between : List Call
between =
    starts tunnel (text "b:443") (text "direct") none 0 2
    ∷ calls 1 (add_up 5)
    ∷ calls 1 set_open
    ∷ drops 2 9
    ∷ calls 1 (add_down 7)
    ∷ []

connection_outcome_example :
    (s : ConnectionSnapshot) × ((close 1 9
        (run (start tunnel (text "a:443") (text "direct") none 0 1 new) between)).history
      ≡ push_history s
          (run (start tunnel (text "a:443") (text "direct") none 0 1 new) between).history)
    × (s.id ≡ 1)
    × (s.target ≡ text "a:443")
    × (s.state ≡ final_state (first_failure (calls_on 1 between)))
    × (s.bytes_up ≡ up_bytes (calls_on 1 between) % u64_modulus)
    × (s.bytes_down ≡ down_bytes (calls_on 1 between) % u64_modulus)
connection_outcome_example =
    connection_outcome tunnel (text "a:443") (text "direct") none 0 1 9 new between (omega arith)
      (omega arith, tt)
