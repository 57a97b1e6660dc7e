-- ===== src/Node/Control.antt =====
-- `run_control` of crates/node-access-3role/src/bin/node-relay.rs and of
-- crates/node-access-2role/src/bin/node-access.rs, from the connected socket on: the texts of the
-- control channel, the tasks that begin for the connections they name, and what these do to the state
-- meanwhile.
use node_access.Prelude.{ℕ, Option, none, some, List, [], ◌∷◌, ◌++◌, Text, text_Eq, if◌then◌else◌}
use node_access.Runtime.{Json}
use node_access.Node.Events.{RelayControlEvent, connected, disconnected, sync, pong, read_event}
use node_access.Node.Relay.{RelayState, control_event, handle_bind, end_connection}
use node_access.Node.Serve.{ServeState, start_served_connection, serve_bind, end_served_connection}

-- What the task of a data connection does to the state: it answers a bind on its handle, or ends.
pub data TaskStep : Type 0 where
  takes_bind : ℕ → Text → Text → Option Text → TaskStep
  finishes : Text → TaskStep

-- What `read.next()` gives, or what a task does between two of these. The starts that one text
-- leads to are made together: for the task of a connection that the text names once, an end in
-- between comes to the same as one before the text or after it.
pub data ControlInput : Type 0 where
  failed other : ControlInput
  text : Text → ControlInput
  task : TaskStep → ControlInput

-- How the loop ends: the socket ends, which is also where the ping task is aborted, a read fails,
-- or a text is no event.
pub data ControlEnd : Type 0 where
  finished read_error : ControlEnd
  invalid_event : Text → ControlEnd

-- The connections for which a task begins, in order, how the loop ends, and the state.
pub record ControlRun (S : Type 0) : Type 0 where
  pub started : List Text
  pub ended : ControlEnd
  pub state : S

module _ (json : Json) {S : Type 0} (handle : RelayControlEvent → S → List Text × S)
    (act : TaskStep → S → S) where
  abbrev began : List Text → ControlRun S → ControlRun S
  began ids r = record r { started = ids ++ r.started }

  unfoldable pub control_loop : List ControlInput → S → ControlRun S
  unfolding read_event
  control_loop [] s = record { started = []; ended = finished; state = s }
  control_loop (failed ∷ inputs) s = record { started = []; ended = read_error; state = s }
  control_loop (other ∷ inputs) s = control_loop inputs s
  control_loop (task step ∷ inputs) s = control_loop inputs (act step s)
  control_loop (text t ∷ inputs) s = elim (read_event json t) [
    | none ↦ record { started = []; ended = invalid_event t; state = s }
    | some event ↦ began (handle event s).0 (control_loop inputs (handle event s).1)
  ]

unfoldable pub relay_task : TaskStep → RelayState → RelayState
relay_task (takes_bind mux connection_id name auth) s =
    (handle_bind mux connection_id name auth s).1
relay_task (finishes connection_id) s = end_connection connection_id s

unfoldable pub run_control : Json → List ControlInput → RelayState → ControlRun RelayState
unfolding control_loop control_event relay_task
run_control json inputs s = control_loop json control_event relay_task inputs s

unfoldable pub start_all_served : List Text → ServeState → List Text × ServeState
unfolding start_served_connection
start_all_served [] s = ([], s)
start_all_served (id ∷ ids) s =
    let r = start_served_connection id s in
    let rest = start_all_served ids r.1 in (if r.0 then id ∷ rest.0 else rest.0, rest.1)

unfoldable pub served_event : RelayControlEvent → ServeState → List Text × ServeState
unfolding start_all_served
served_event (connected connection_id) s = start_all_served (connection_id ∷ []) s
served_event (sync connection_ids) s = start_all_served connection_ids s
served_event (disconnected connection_id) s = ([], s)
served_event pong s = ([], s)

unfoldable pub served_task : TaskStep → ServeState → ServeState
served_task (takes_bind mux connection_id name auth) s =
    (serve_bind mux connection_id name auth s).1
served_task (finishes connection_id) s = end_served_connection connection_id s

unfoldable pub run_served_control : Json → List ControlInput → ServeState → ControlRun ServeState
unfolding control_loop served_event served_task
run_served_control json inputs s = control_loop json served_event served_task inputs s
