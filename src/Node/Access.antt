-- ===== src/Node/Access.antt =====
-- The access node, crates/node-access-3role/src/bin/node-access.rs: `run_once` from the connected
-- socket on, and its listeners.
use node_access.Prelude.{
  Bool, if◌then◌else◌, true, false, not, ◌&&◌, Option, none, some, List, [], ◌∷◌, ◌++◌, Text, str,
  is_empty, text_Eq,
}
use node_access.HashMap.{HashMap, get, insert}
use node_access.Mux.Frame.{
  OpenRequest, socks, visit, provider_connect, ControlMessage, bind, bind_ack, info,
}
use node_access.Mux.Crypto.{Aead, FrameCrypto, from_secret}
use node_access.Mux.Endpoint.{
  Endpoint, VirtualStream, start, into_stream, drop_stream, send_control, open_stream,
}
use node_access.Node.Mapping.{TcpMapping}
use node_access.Node.Select.{
  Branch, takes_stream, takes_message, sees_closed, Turn, waits, breaks, goes_on, recv_stream,
  recv_message, select_loop,
}

-- The id that it connects under.
unfoldable pub access_connection_id : Option Text → Text → Text
access_connection_id (some connection_id) name = connection_id
access_connection_id none name = str "access-" ++ name

unfoldable pub access_crypto : (aead : Aead) → Option Text → Option (FrameCrypto aead)
unfolding from_secret
access_crypto aead none = none
access_crypto aead (some secret) = some (from_secret aead secret 0 1)

-- The binds are sent until one of them fails; whether all have been.
unfoldable pub send_binds : List TcpMapping → Endpoint → Bool × Endpoint
unfolding send_control
send_binds [] e = (true, e)
send_binds (provider ∷ providers) e =
    let r = send_control (bind provider.name provider.auth) e in
    let rest = send_binds providers r.1 in if r.0 then rest else (false, r.1)

unfoldable pub access_end : List TcpMapping → Bool × Endpoint
unfolding start send_binds
access_end providers = send_binds providers (start 1)

-- `collect` into a map: a later mapping of a name takes the place of an earlier one.
unfoldable pub target_table : List TcpMapping → HashMap Text Text → HashMap Text Text
target_table [] m = m
target_table (mapping ∷ mappings) m = target_table mappings (insert mapping.name mapping.addr m)

-- What the loop does: it connects a stream to a target, or it logs.
pub data AccessAct : Type 0 where
  connects : VirtualStream → Text → Text → AccessAct
  not_configured : Text → AccessAct
  unexpected_stream : OpenRequest → AccessAct
  registered : Text → AccessAct
  registration_rejected : Text → Text → AccessAct
  informed : Text → AccessAct
  ignored : AccessAct

-- A stream that is not connected is dropped, which closes it.
unfoldable pub connect_target : Text → VirtualStream → Option Text → Endpoint → AccessAct × Endpoint
unfolding drop_stream
connect_target name stream none e = (not_configured name, drop_stream stream e)
connect_target name stream (some target) e = (connects stream name target, e)

unfoldable pub provider_stream :
    HashMap Text Text → OpenRequest → VirtualStream → Endpoint → AccessAct × Endpoint
unfolding connect_target drop_stream
provider_stream targets (provider_connect name) stream e =
    connect_target name stream (get name targets) e
provider_stream targets socks stream e = (unexpected_stream socks, drop_stream stream e)
provider_stream targets (visit name auth) stream e =
    (unexpected_stream (visit name auth), drop_stream stream e)

unfoldable pub error_text : Option Text → Text
error_text none = str "unknown error"
error_text (some error) = error

unfoldable pub access_message : ControlMessage → AccessAct
unfolding error_text
access_message (bind_ack name ok error) =
    if ok then registered name else registration_rejected name (error_text error)
access_message (info message) = informed message
access_message (bind name auth) = ignored

-- The body of the loop.
unfoldable pub access_branch : HashMap Text Text → Branch → Endpoint → Turn AccessAct Endpoint
unfolding recv_stream recv_message provider_stream into_stream access_message
access_branch targets takes_stream e = elim (recv_stream e) [
  | none ↦ waits
  | some (stream, rest) ↦
      let r = provider_stream targets stream.request (into_stream stream) rest in goes_on r.0 r.1
]
access_branch targets takes_message e = elim (recv_message e) [
  | none ↦ waits
  | some (message, rest) ↦ goes_on (access_message message) rest
]
access_branch targets sees_closed e = if e.reader.closed then breaks else waits

-- The loop of `run_once`: it ends where the connection is closed.
unfoldable pub run_access :
    List TcpMapping → List Branch → Endpoint → List AccessAct × (Bool × Endpoint)
unfolding access_branch select_loop target_table
run_access providers branches e = select_loop (access_branch (target_table providers [])) branches e

-- A listener opens a stream for each client, until `accept` fails; the streams that it has opened.
unfoldable pub accept_loop : OpenRequest → List Bool → Endpoint → List VirtualStream × Endpoint
unfolding open_stream
accept_loop request [] e = ([], e)
accept_loop request (accepted ∷ accepts) e =
    let r = open_stream request e in
    let rest = accept_loop request accepts r.1 in
    if accepted then (tunnel r.0 rest.0, rest.1) else ([], e)
  where
    tunnel : Option VirtualStream → List VirtualStream → List VirtualStream
    tunnel none streams = streams
    tunnel (some stream) streams = stream ∷ streams

unfoldable pub wants_socks5 : Bool → Text → Bool
wants_socks5 no_socks5 socks5 = not no_socks5 && not (is_empty socks5)

unfoldable pub spawn_socks_listener : List Bool → Endpoint → List VirtualStream × Endpoint
unfolding accept_loop
spawn_socks_listener accepts e = accept_loop socks accepts e

unfoldable pub spawn_visitor_listener :
    TcpMapping → List Bool → Endpoint → List VirtualStream × Endpoint
unfolding accept_loop
spawn_visitor_listener visitor accepts e = accept_loop (visit visitor.name visitor.auth) accepts e
