-- ===== src/Mux/ReadingTests.antt =====
-- Witnesses of the theorems on reading from a stream.
use node_access.Prelude.{ℕ}
use node_access.Prelude.{◌≡◌, ◌↔◌, false, List, [], ◌∷◌, ◌++◌, map, str, arith}
use node_access.Mux.Streams.{ready_ok}
use node_access.Mux.Reading.{Inbound, concat, Event, comes, ends, polls, came, play, poll, waiting}
use node_access.Mux.Reading.Emptying.{asks, reads_all}
use node_access.Mux.Reading.Ends.{IsEnd, poll-Ends}

-- A call comes between two chunks, and what comes after the drop of the sender is lost.
abbrev events : List Event
events = comes (str "ab") ∷ polls 0 1 ∷ comes (str "c") ∷ ends ∷ comes (str "d") ∷ []

abbrev at_first : Inbound
at_first = record { read_buffer = str "x"; queue = []; ended = false }

abbrev rooms : List (ℕ × ℕ)
rooms = (0, 1) ∷ (0, 8) ∷ (2, 1) ∷ (0, 3) ∷ (0, 1) ∷ (0, 1) ∷ []

reads_all_example :
    let r = play (events ++ map asks rooms) at_first in
    (r.0 ≡ waiting at_first ++ concat (came false events)) × (waiting r.1 ≡ [])
reads_all_example =
    reads_all events rooms at_first
      (omega arith, (omega arith, (omega arith, (omega arith, (omega arith, (omega arith, tt))))))
      (omega arith)

-- An empty write has come.
abbrev empty_chunk : Inbound
empty_chunk = record { read_buffer = []; queue = [] ∷ str "c" ∷ []; ended = false }

poll-Ends_example :
    let r = (poll 0 4 empty_chunk).0 in
    ((r.answer ≡ ready_ok) × (r.put ≡ []))
    ↔ ((empty_chunk.read_buffer ≡ []) × IsEnd empty_chunk.queue empty_chunk.ended)
poll-Ends_example = poll-Ends 4 empty_chunk (omega arith)
