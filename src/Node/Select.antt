-- ===== src/Node/Select.antt =====
-- What the loops over a data connection have in common, of
-- crates/node-access-3role/src/bin/node-relay.rs, of node-access.rs beside it, and of
-- crates/node-access-2role/src/bin/node-access.rs: `tokio::select!` takes one of the branches that
-- are ready.
use node_access.Prelude.{◌≡◌, refl, Bool, true, false, Option, none, some, List, [], ◌∷◌}
use node_access.Mux.Frame.{ControlMessage}
use node_access.Mux.Reader.{IncomingStream}
use node_access.Mux.Endpoint.{Endpoint}

pub data Branch : Type 0 where
  takes_stream takes_message sees_closed : Branch

-- What a branch comes to: it waits, it ends the loop, or it does something to the state.
pub data Turn (A S : Type 0) : Type 0 where
  waits breaks : Turn A S
  goes_on : A → S → Turn A S

unfoldable pub first_stream : List IncomingStream → Endpoint → Option (IncomingStream × Endpoint)
first_stream [] e = none
first_stream (stream ∷ rest) e =
    some (stream, record e { reader = record (e.reader) { incoming = rest } })

-- `incoming.recv()`
unfoldable pub recv_stream : Endpoint → Option (IncomingStream × Endpoint)
unfolding first_stream
recv_stream e = first_stream e.reader.incoming e

unfoldable pub first_message : List ControlMessage → Endpoint → Option (ControlMessage × Endpoint)
first_message [] e = none
first_message (message ∷ rest) e =
    some (message, record e { reader = record (e.reader) { control = rest } })

-- `control.recv()`
unfoldable pub recv_message : Endpoint → Option (ControlMessage × Endpoint)
unfolding first_message
recv_message e = first_message e.reader.control e

-- The loop over the branches that are picked, and whether it has ended.
unfoldable pub select_loop :
    {A S : Type 0} → (Branch → S → Turn A S) → List Branch → S → List A × (Bool × S)
select_loop body [] s = ([], (false, s))
select_loop body (branch ∷ branches) s = elim (body branch s) [
  | waits ↦ select_loop body branches s
  | breaks ↦ ([], (true, s))
  | goes_on a t ↦ let rest = select_loop body branches t in (a ∷ rest.0, rest.1)
]

-- A branch that is ready is one turn of the loop.
pub select_loop-goes_on :
    {A S : Type 0} (body : Branch → S → Turn A S) (branch : Branch) (branches : List Branch)
    (s t : S) (a : A)
    → body branch s ≡ goes_on a t
    → select_loop body (branch ∷ branches) s
      ≡ (a ∷ (select_loop body branches t).0, (select_loop body branches t).1)
unfolding select_loop
select_loop-goes_on body branch branches s t a e = rw (select_loop, e) refl
