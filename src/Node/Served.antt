-- ===== src/Node/Served.antt =====
-- The data connections of crates/node-access-2role/src/bin/node-access.rs, from the connected
-- socket on: `run_served_data_connection` and `run_remote_visitor_once`, which do what the relay
-- node and the access node of crates/node-access-3role do, on a state of their own.
pub mod Refinement
use node_access.Prelude.{
  ℕ, ◌≡◌, refl, sym, ap, ◌∙◌, Bool, Bool-cases, if◌then◌else◌, Option, Option-cases, none, some,
  inl, inr, List, [], ◌∷◌, Text, text_Eq,
}
use node_access.HashMap.{HashMap, get, insert}
use node_access.Mux.Frame.{
  OpenRequest, socks, visit, provider_connect, ControlMessage, bind, bind_ack, info,
}
use node_access.Mux.Endpoint.{
  Endpoint, VirtualStream, start, send_control, into_stream, drop_stream,
}
use node_access.Node.Mapping.{TcpMapping}
use node_access.Node.Relay.{RelayState, handle_bind}
use node_access.Node.Serve.{ServeState, shared, serve_refines_relay, serve_bind, addresses}
use node_access.Node.Select.{
  Branch, takes_stream, takes_message, sees_closed, Turn, waits, breaks, goes_on, recv_stream,
  recv_message, select_loop,
}
use node_access.Node.Data.{
  Act, has_bound, unexpected_message, serves_socks5, visits, DataState, stream_act, take_message,
  answered, data_branch, run_data_connection,
}
use node_access.Node.Access.{
  AccessAct, connects, not_configured, informed, ignored, registered, registration_rejected,
  error_text, access_message, connect_target, provider_stream, target_table, access_branch,
  run_access,
}

unfoldable pub served_end : Endpoint
unfolding start
served_end = start 2

abbrev pub ServedState : Type 0
ServedState = ServeState × Endpoint

-- A stream that is not taken is dropped, which closes it.
unfoldable pub served_stream : OpenRequest → VirtualStream → Endpoint → Act × Endpoint
unfolding drop_stream
served_stream socks stream e = (serves_socks5 stream, e)
served_stream (visit name auth) stream e = (visits name auth stream, e)
served_stream (provider_connect name) stream e =
    (Act.unexpected_stream (provider_connect name), drop_stream stream e)

unfoldable pub served_message : ℕ → Text → ControlMessage → ServedState → Turn Act ServedState
unfolding serve_bind send_control
served_message mux connection_id (bind name auth) (s, e) =
    let r = serve_bind mux connection_id name auth s in
    goes_on (has_bound r.0) (r.1, (send_control r.0 e).1)
served_message mux connection_id (bind_ack name ok error) (s, e) =
    goes_on (unexpected_message (bind_ack name ok error)) (s, e)
served_message mux connection_id (info message) (s, e) =
    goes_on (unexpected_message (info message)) (s, e)

unfoldable pub served_branch : ℕ → Text → Branch → ServedState → Turn Act ServedState
unfolding served_stream into_stream recv_stream served_message recv_message
served_branch mux connection_id takes_stream (s, e) = elim (recv_stream e) [
  | none ↦ waits
  | some (stream, rest) ↦
      let r = served_stream stream.request (into_stream stream) rest in goes_on r.0 (s, r.1)
]
served_branch mux connection_id takes_message (s, e) = elim (recv_message e) [
  | none ↦ waits
  | some (message, rest) ↦ served_message mux connection_id message (s, rest)
]
served_branch mux connection_id sees_closed (s, e) = if e.reader.closed then breaks else waits

unfoldable pub run_served_data_connection :
    ℕ → Text → List Branch → ServedState → List Act × (Bool × ServedState)
unfolding served_branch select_loop
run_served_data_connection mux connection_id branches s =
    select_loop (served_branch mux connection_id) branches s

-- A stream that is not connected is dropped, which closes it.
unfoldable pub visitor_target : Text → VirtualStream → Option Text → Endpoint → AccessAct × Endpoint
unfolding drop_stream
visitor_target name stream none e = (not_configured name, drop_stream stream e)
visitor_target name stream (some target) e = (connects stream name target, e)

unfoldable pub visitor_stream :
    HashMap Text Text → OpenRequest → VirtualStream → Endpoint → AccessAct × Endpoint
unfolding visitor_target drop_stream
visitor_stream targets (provider_connect name) stream e =
    visitor_target name stream (get name targets) e
visitor_stream targets socks stream e = (AccessAct.unexpected_stream socks, drop_stream stream e)
visitor_stream targets (visit name auth) stream e =
    (AccessAct.unexpected_stream (visit name auth), drop_stream stream e)

unfoldable pub visitor_message : ControlMessage → AccessAct
unfolding error_text
visitor_message (bind_ack name ok error) =
    if ok then registered name else registration_rejected name (error_text error)
visitor_message (info message) = informed message
visitor_message (bind name auth) = ignored

unfoldable pub visitor_branch : HashMap Text Text → Branch → Endpoint → Turn AccessAct Endpoint
unfolding recv_stream recv_message visitor_stream into_stream visitor_message
visitor_branch targets takes_stream e = elim (recv_stream e) [
  | none ↦ waits
  | some (stream, rest) ↦
      let r = visitor_stream targets stream.request (into_stream stream) rest in goes_on r.0 r.1
]
visitor_branch targets takes_message e = elim (recv_message e) [
  | none ↦ waits
  | some (message, rest) ↦ goes_on (visitor_message message) rest
]
visitor_branch targets sees_closed e = if e.reader.closed then breaks else waits

-- The loop of `run_remote_visitor_once`.
unfoldable pub run_remote_visitor :
    List TcpMapping → List Branch → Endpoint → List AccessAct × (Bool × Endpoint)
unfolding visitor_branch select_loop addresses
run_remote_visitor providers branches e =
    select_loop (visitor_branch (addresses providers [])) branches e
