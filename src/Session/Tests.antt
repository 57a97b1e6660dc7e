-- ===== src/Session/Tests.antt =====
-- Witnesses of the theorems on sessions, and runs at concrete inputs.
use node_access.Prelude.{sym}
use node_access.Prelude.{inl}
use node_access.Prelude.{◌==◌}
use node_access.Prelude.{Bool-cases}
use node_access.Prelude.{Option}
use node_access.Prelude.{ap}
use node_access.Session.Handlers.{close_all}
use node_access.Session.Handlers.{forward_all}
use mathlib.Core.List.{Permᴰ}
use node_access.Session.Carrying.{handle_arrivals, arrivals_carried}
use node_access.Session.Arrivals.{Arrival, frames_of}
use node_access.Session.Orders.{orders_agree}
use node_access.Prelude.{
  is_empty, List, inr, if◌then◌else◌, text_eq, ◌-◌, ◌≡◌, ◌≢◌, refl, map, drop, ◌++◌, if◌then◌else◌,
  nat_eq, text_Eq, none, false, some, [], ◌∷◌, Text, str, arith,
}
use node_access.HashMap.{HashMap, get, remove}
use node_access.Protocol.{ok, server, client, v2}
use node_access.Session.State.{
  PeerId, pending_frame_limit, close, v2_server_control, SessionState, OutboundMessage, PeerMeta,
  PeerHandle, v2_server_data, v2_client, RelayFrame, empty_session, default_limits,
}
use node_access.Session.Ops.{
  to_outbound, send_or_close, count_live_sockets, from_slot, disconnected_text, sync_text,
  collect_client_connection_ids,
}
use node_access.Session.Handlers.{register, handle_frame, unregister, ping_target}
use node_access.Session.Effects.{has_room, Told}
use node_access.Session.Routing.{
  InSession, in_v1_server, in_v1_client, in_control, in_data, in_clients, handle_frame_isolated,
  here,
}
use node_access.Session.Waiting.{handle_frames, buffered_then_flushed}
use node_access.Session.Forwarding.{server_frame_reaches_clients}
use node_access.Session.Lifecycle.{
  send_or_close_full, unregister-Replaced_data, unregister_last_client,
}
use node_access.Session.Nudge.{
  Visit, nudge, first_client, over, has_client_socket, has_server_data_socket, nudge_outcome,
}
use node_access.Session.Registry.{key_Eq}
use node_access.Runtime.Samples.{answer, Network, sample_channels, sample_json}
use node_access.Runtime.{Channels}
use node_access.Session.WellFormed.{WellFormed}
use node_access.Session.System.{registers, sends, unregisters, run, run-WellFormed}

abbrev net : Channels OutboundMessage
net = sample_channels OutboundMessage

-- Every channel is open, empty and of the default size.
abbrev quiet : Network OutboundMessage
quiet = λ c. record { queue = []; capacity = 256; is_closed = false }

abbrev id : Text
id = str "access-laptop"

abbrev client_meta : PeerMeta
client_meta = record {
  peer_id = 1;
  server_id = str "node";
  role = client;
  version = v2;
  connection_id = some id;
  kind = v2_client id;
}

abbrev data_meta : PeerMeta
data_meta = record {
  peer_id = 2;
  server_id = str "node";
  role = server;
  version = v2;
  connection_id = some id;
  kind = v2_server_data id;
}

abbrev client_handle : PeerHandle
client_handle = record { meta = client_meta; tx = 1 }

abbrev data_handle : PeerHandle
data_handle = record { meta = data_meta; tx = 2 }

abbrev hello : RelayFrame
hello = RelayFrame.text (str "hello")

abbrev bytes : RelayFrame
bytes = RelayFrame.binary (1 ∷ 2 ∷ [])

run-WellFormed_example :
    WellFormed default_limits
      (run net sample_json default_limits
        (registers client_handle
          ∷ sends client_meta 0 hello
          ∷ registers data_handle
          ∷ unregisters client_meta
          ∷ [])
        (empty_session, quiet)).0
run-WellFormed_example =
    run-WellFormed net sample_json default_limits
      (registers client_handle
        ∷ sends client_meta 0 hello
        ∷ registers data_handle
        ∷ unregisters client_meta
        ∷ [])
      quiet (omega arith)

abbrev control_meta : PeerMeta
control_meta = record {
  peer_id = 3;
  server_id = str "node";
  role = server;
  version = v2;
  connection_id = none;
  kind = v2_server_control;
}

abbrev control_handle : PeerHandle
control_handle = record { meta = control_meta; tx = 3 }

-- Another server data socket of the connection.
abbrev stale_meta : PeerMeta
stale_meta = record data_meta { peer_id = 7 }

abbrev clients_of_id : HashMap PeerId PeerHandle
clients_of_id = (1, client_handle) ∷ []

abbrev joined : SessionState
joined = record empty_session {
  server_control = some control_handle;
  server_data = (id, data_handle) ∷ [];
  clients = (id, clients_of_id) ∷ [];
}

buffered_then_flushed_example :
    let r = handle_frames net sample_json client_meta 0 (hello ∷ bytes ∷ []) empty_session quiet in
    let q = register net sample_json default_limits data_handle r.0 r.1 in
    (q.0 ≡ ok none)
    × (net.queued 2 q.2
        ≡ net.queued 2 quiet
          ++ map to_outbound (drop (2 - pending_frame_limit) (hello ∷ bytes ∷ [])))
    × (get id q.1.pending ≡ none)
    × (get id q.1.server_data ≡ some data_handle)
unfolding get count_live_sockets
buffered_then_flushed_example =
    buffered_then_flushed net sample_json default_limits client_meta 0 id (hello ∷ bytes ∷ [])
      data_handle empty_session quiet refl refl refl refl refl (omega arith) refl (omega arith)

empty_held : (h : PeerHandle) → InSession h empty_session → h.tx ≢ 9
unfolding get text_eq
empty_held h (in_v1_server e) = absurd (cc e)
empty_held h (in_v1_client e) = absurd (cc e)
empty_held h (in_control e) = absurd (cc e)
empty_held h (in_data k e) = absurd (cc e)
empty_held h (in_clients k c e m) = absurd (cc e)

handle_frame_isolated_example :
    net.queued 9 (handle_frame net sample_json client_meta 0 hello empty_session quiet).1
    ≡ net.queued 9 quiet
unfolding run
handle_frame_isolated_example =
    handle_frame_isolated net sample_json default_limits client_meta 0 hello empty_session quiet 9
      (run-WellFormed net sample_json default_limits [] quiet (omega arith))
      (λ h i k. empty_held h i)

server_frame_reaches_clients_example :
    let r = handle_frame net sample_json data_meta 0 hello joined quiet in
    (net.queued 1 r.1 ≡ (
      if has_room net 1 quiet
      then net.queued 1 quiet ++ to_outbound hello ∷ []
      else net.queued 1 quiet))
    × (r.0 ≡ joined)
unfolding get text_eq
server_frame_reaches_clients_example =
    server_frame_reaches_clients net sample_json data_meta 0 hello joined quiet id refl
      clients_of_id client_handle refl refl (tt, tt) here

-- The channel of the client takes no message.
abbrev stuck : Network OutboundMessage
stuck = λ c. record { queue = []; capacity = 0; is_closed = false }

send_or_close_full_example :
    net.queued 1 (send_or_close net client_handle (to_outbound hello) stuck) ≡ net.queued 1 stuck
unfolding answer
send_or_close_full_example =
    send_or_close_full net sample_json default_limits client_handle (to_outbound hello) stuck 1 refl

unregister-Replaced_data_example :
    net.queued 1 (unregister net sample_json stale_meta joined quiet).1
    ≡ net.queued 1 quiet ++ close 1012 (str "Server disconnected") ∷ []
unfolding get ping_target text_eq
unregister-Replaced_data_example =
    unregister-Replaced_data net sample_json default_limits stale_meta joined quiet id clients_of_id
      client_handle refl (data_handle, refl, omega arith) refl (tt, tt) here refl

unregister_last_client_example :
    let r = unregister net sample_json client_meta joined quiet in
    (get id (r.0).clients ≡ none)
    × (get id (r.0).pending ≡ none)
    × (get id (r.0).server_data ≡ none)
    × ((other : Text)
        → id ≢ other
        → (get other (r.0).clients ≡ get other joined.clients)
          × (get other (r.0).pending ≡ get other joined.pending)
          × (get other (r.0).server_data ≡ get other joined.server_data))
    × ((r.0).server_control ≡ joined.server_control)
    × (closed : Network OutboundMessage) × Told net
        (get id joined.server_data)
        (close 1001 (str "Client disconnected"))
        quiet
        closed
    × Told net joined.server_control
        (OutboundMessage.text (disconnected_text sample_json id))
        closed
        r.1
unfolding get remove text_eq
unregister_last_client_example =
    unregister_last_client net sample_json default_limits client_meta joined quiet id clients_of_id
      refl refl refl

-- The client is there and the server has not opened its data socket.
abbrev unserved : SessionState
unserved = record joined { server_data = [] }

nudge_outcome_example :
    let visits : List (Visit net sample_json) =
      (unserved, λ n. n)
      ∷ (unserved, λ n. n)
      ∷ (unserved, λ n. n)
      ∷ (unserved, λ n. n)
      ∷ (unserved, λ n. n)
      ∷ (unserved, λ n. n)
      ∷ [] in
    let r = nudge net sample_json id first_client visits quiet in
    (r.0 ≡ over)
    × (synced : Network OutboundMessage) × Told net unserved.server_control
        (OutboundMessage.text (sync_text sample_json (collect_client_connection_ids unserved)))
        quiet
        synced
    × Told net unserved.server_control (close 1011 (str "Control unresponsive")) synced r.1
unfolding has_client_socket has_server_data_socket get text_eq is_empty
nudge_outcome_example =
    nudge_outcome net sample_json id unserved unserved unserved unserved unserved unserved (λ n. n)
      (λ n. n) (λ n. n) (λ n. n) (λ n. n) (λ n. n) quiet

orders_agree_example :
    (net.queued 2 (forward_all net (client_handle ∷ data_handle ∷ []) hello quiet)
      ≡ net.queued 2 (forward_all net (data_handle ∷ client_handle ∷ []) hello quiet))
    × (net.queued 2 (close_all net (client_handle ∷ data_handle ∷ []) quiet)
        ≡ net.queued 2 (close_all net (data_handle ∷ client_handle ∷ []) quiet))
orders_agree_example =
    orders_agree net hello (client_handle ∷ data_handle ∷ []) (data_handle ∷ client_handle ∷ [])
      quiet 2 (Permᴰ.swap refl refl)

-- The server data socket of the connection, beside a control socket.
abbrev serving : SessionState
serving = record empty_session {
  server_control = some control_handle;
  server_data = (id, data_handle) ∷ [];
}

serving-WellFormed : WellFormed default_limits serving
unfolding count_live_sockets from_slot get
serving-WellFormed = record {
  at_v1_server = tt;
  at_v1_client = tt;
  at_control = refl;
  at_data = (refl, tt);
  at_clients = tt;
  at_pending = tt;
  waiting = λ i frames e. absurd (cc e);
  sockets = omega arith;
}

serving_alone :
    (h : PeerHandle) → InSession h serving → h.tx ≡ data_handle.tx → h.meta.kind ≡ v2_server_data id
unfolding get
serving_alone h (in_v1_server e) q = absurd (cc e)
serving_alone h (in_v1_client e) q = absurd (cc e)
serving_alone h (in_control e) q =
    let tx_is : 3 ≡ h.tx = ap (λ (o : Option PeerHandle). elim o [ none ↦ 0 | some h ↦ h.tx ]) e in
    absurd (omega (arith, tx_is, q))
serving_alone h (in_data k e) q = elim (Bool-cases (id == k)) [
  | inl y ↦ sym (
      ap (λ (o : Option PeerHandle). elim o [ none ↦ v2_server_control | some h ↦ h.meta.kind ])
        (rw y at e))
  | inr y ↦ absurd (let z = rw y at e in cc z)
]
serving_alone h (in_clients k c e m) q = absurd (cc e)

-- Two frames of a client, with a ping of the control socket between them.
abbrev arrivals : List Arrival
arrivals =
    record { meta = client_meta; ts = 0; frame = hello }
    ∷ record { meta = control_meta; ts = 1; frame = hello }
    ∷ record { meta = client_meta; ts = 2; frame = bytes }
    ∷ []

arrivals_carried_example :
    let r = handle_arrivals net sample_json default_limits arrivals (serving, quiet) in
    (net.queued 2 r.1 ≡ net.queued 2 quiet ++ map to_outbound (frames_of id arrivals))
    × (r.0.server_data ≡ serving.server_data)
unfolding text_eq
arrivals_carried_example =
    arrivals_carried net sample_json default_limits id data_handle arrivals serving quiet
      serving-WellFormed (record { held = unfold get text_eq in refl; alone = serving_alone })
      (record { open_channel = refl; room = omega arith })
