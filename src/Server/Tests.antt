-- ===== src/Server/Tests.antt =====
-- Witnesses of the theorems on the relay's server.
use node_access.Prelude.{ℕ, [], ◌∷◌, List, str, arith, ◌+◌, ◌≤◌, length}
use node_access.Session.State.{default_limits}
use node_access.Server.Peer.{Incoming, text, binary, idle, Window, decisions, decisions_rate}

abbrev inputs : List (ℕ × Incoming)
inputs = (5, text (str "hello")) ∷ (6, binary (1 ∷ 2 ∷ [])) ∷ (7, idle) ∷ []

abbrev window : Window
window = record { window_started_at = 0; messages_in_window = 0 }

decisions_rate_example : 0 + length (decisions default_limits window inputs) ≤ 240
decisions_rate_example =
    decisions_rate default_limits window inputs (omega arith)
      ((omega arith, omega arith), ((omega arith, omega arith), ((omega arith, omega arith), tt)))
