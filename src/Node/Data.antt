-- ===== src/Node/Data.antt =====
-- `run_data_connection` of crates/node-access-3role/src/bin/node-relay.rs, from the connected
-- socket on: its end of the multiplexed connection, and its loop over what an access node opens and
-- tells.
use node_access.Prelude.{ℕ, Bool, if◌then◌else◌, Option, none, some, List, Text}
use node_access.Mux.Frame.{
  OpenRequest, socks, visit, provider_connect, ControlMessage, bind, bind_ack, info,
}
use node_access.Mux.Crypto.{Aead, FrameCrypto, from_secret}
use node_access.Mux.Endpoint.{
  Endpoint, VirtualStream, start, into_stream, drop_stream, send_control,
}
use node_access.Node.Relay.{RelayState, handle_bind}
use node_access.Node.Select.{
  Branch, takes_stream, takes_message, sees_closed, Turn, waits, breaks, goes_on, recv_stream,
  recv_message, select_loop,
}

unfoldable pub relay_crypto : (aead : Aead) → Option Text → Option (FrameCrypto aead)
unfolding from_secret
relay_crypto aead none = none
relay_crypto aead (some secret) = some (from_secret aead secret 1 0)

unfoldable pub relay_end : Endpoint
unfolding start
relay_end = start 2

-- The task that the loop spawns, or what it does at once.
pub data Act : Type 0 where
  serves_socks5 : VirtualStream → Act
  visits : Text → Option Text → VirtualStream → Act
  unexpected_stream : OpenRequest → Act
  has_bound : ControlMessage → Act
  unexpected_message : ControlMessage → Act

-- A stream that is not taken is dropped, which closes it.
unfoldable pub stream_act : OpenRequest → VirtualStream → Endpoint → Act × Endpoint
unfolding drop_stream
stream_act socks stream e = (serves_socks5 stream, e)
stream_act (visit name auth) stream e = (visits name auth stream, e)
stream_act (provider_connect name) stream e =
    (unexpected_stream (provider_connect name), drop_stream stream e)

-- The relay's state, and the connection's end.
abbrev pub DataState : Type 0
DataState = RelayState × Endpoint

-- The answer to a bind goes out, if it can: `let _ = handle.send_control(..)`.
unfoldable pub answered : ControlMessage × RelayState → Endpoint → Turn Act DataState
unfolding send_control
answered r e = goes_on (has_bound r.0) (r.1, (send_control r.0 e).1)

unfoldable pub take_message : ℕ → Text → ControlMessage → DataState → Turn Act DataState
unfolding answered handle_bind
take_message mux connection_id (bind name auth) (s, e) =
    answered (handle_bind mux connection_id name auth s) e
take_message mux connection_id (bind_ack name ok error) (s, e) =
    goes_on (unexpected_message (bind_ack name ok error)) (s, e)
take_message mux connection_id (info message) (s, e) =
    goes_on (unexpected_message (info message)) (s, e)

-- The body of the loop.
unfoldable pub data_branch : ℕ → Text → Branch → DataState → Turn Act DataState
unfolding stream_act into_stream recv_stream take_message recv_message
data_branch mux connection_id takes_stream (s, e) = elim (recv_stream e) [
  | none ↦ waits
  | some (stream, rest) ↦
      let r = stream_act stream.request (into_stream stream) rest in goes_on r.0 (s, r.1)
]
data_branch mux connection_id takes_message (s, e) = elim (recv_message e) [
  | none ↦ waits
  | some (message, rest) ↦ take_message mux connection_id message (s, rest)
]
data_branch mux connection_id sees_closed (s, e) = if e.reader.closed then breaks else waits

unfoldable pub run_data_connection :
    ℕ → Text → List Branch → DataState → List Act × (Bool × DataState)
unfolding data_branch select_loop
run_data_connection mux connection_id branches s =
    select_loop (data_branch mux connection_id) branches s
