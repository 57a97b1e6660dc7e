-- ===== src/Session/Handlers.antt =====
-- The operations of `RelaySession` in crates/relay/src/session.rs: `register`, `handle_frame`,
-- `handle_ping` and `unregister`, each with every change that it makes to the session and to the
-- network.
use node_access.Prelude.{
  ℕ, Bool, false, Option, none, some, List, [], ◌∷◌, leb, ◌==◌, if◌then◌else◌, length, Text, str,
  nat_eq, text_Eq, is_empty,
}
use node_access.HashMap.{HashMap, get, insert, remove, values}
use node_access.Runtime.{Channels, Json}
use node_access.Protocol.{RelayVersion, v1, v2, Result, ok, err}
use node_access.Session.State.{
  OutboundMessage, pong, Bytes, RelayFrame, PeerHandle, PeerId, PeerKind, v1_server, v1_client,
  v2_server_control, v2_server_data, v2_client, PeerMeta, SessionState, RelayLimitsConfig,
}
use node_access.Session.Ops.{
  close_handle, send_or_close, forward_frame, notify_control_locked, flush_pending_locked,
  buffer_pending_locked, collect_client_connection_ids, count_live_sockets, clear_if_same,
  text_is_ping, sync_text, connected_text, disconnected_text, pong_text,
}

-- `state.clients.entry(connection_id).or_default()`: the entry of an absent id is made.
unfoldable pub entry_clients :
    Text → HashMap Text (HashMap PeerId PeerHandle) → HashMap Text (HashMap PeerId PeerHandle)
entry_clients id m = elim (get id m) [ none ↦ insert id [] m | some c ↦ m ]

unfoldable pub clients_of :
    Text → HashMap Text (HashMap PeerId PeerHandle) → HashMap PeerId PeerHandle
clients_of id m = elim (get id m) [ none ↦ [] | some c ↦ c ]

-- The text of each refusal, and the result of a registration: on success the connection id for
-- which a nudge task is spawned, if one is.
abbrev pub Registered : Type 0
Registered = Result (Option Text)

-- The handle that answers a WebSocket ping of a peer.
unfoldable pub ping_target : PeerId → PeerKind → SessionState → Option PeerHandle
ping_target peer_id v1_server s = s.v1_server
ping_target peer_id v1_client s = s.v1_client
ping_target peer_id v2_server_control s = s.server_control
ping_target peer_id (v2_server_data id) s = get id s.server_data
ping_target peer_id (v2_client id) s = elim (get id s.clients) [
  | none ↦ none
  | some clients ↦ get peer_id clients
]

-- A `for` loop over handles, each of which acts on the network.
unfoldable pub each : {N : Type 0} → (PeerHandle → N → N) → List PeerHandle → N → N
each act [] n = n
each act (handle ∷ handles) n = each act handles (act handle n)

-- `matches!(slot, Some(handle) if handle.meta.peer_id == peer_id)`
unfoldable pub holds_peer : PeerId → Option PeerHandle → Bool
holds_peer peer_id none = false
holds_peer peer_id (some handle) = handle.meta.peer_id == peer_id

-- The arm of `unregister` for a v2 server data socket.
module _ (net : Channels OutboundMessage) where
  open net use {Net}

  unfoldable pub close_replaced : Option PeerHandle → Net → Net
  close_replaced none n = n
  close_replaced (some existing) n =
      close_handle net existing 1008 (str "Replaced by new connection") n

  unfoldable pub close_all : List PeerHandle → Net → Net
  unfolding each
  close_all = each (λ client. close_handle net client 1012 (str "Server disconnected"))

  unfoldable pub forward_all : List PeerHandle → RelayFrame → Net → Net
  unfolding each
  forward_all targets frame = each (λ target. forward_frame net target frame) targets

  unfoldable pub forward_slot : Option PeerHandle → RelayFrame → Net → Net
  forward_slot none frame n = n
  forward_slot (some target) frame n = forward_frame net target frame n

  unfoldable pub close_clients : Option (HashMap PeerId PeerHandle) → Net → Net
  unfolding close_all
  close_clients none n = n
  close_clients (some clients) n = close_all (values clients) n

  unfoldable pub unregister_data : PeerId → Text → SessionState → Net → SessionState × Net
  unfolding holds_peer close_clients
  unregister_data peer_id id s n =
      let s1 =
        if holds_peer peer_id (get id s.server_data)
        then record s { server_data = remove id s.server_data }
        else s in
      (s1, close_clients (get id s.clients) n)

  unfoldable pub close_data : Option PeerHandle → Net → Net
  close_data none n = n
  close_data (some server) n = close_handle net server 1001 (str "Client disconnected") n

  module _ (json : Json) where
    -- The arm of `register` for a v2 client.
    unfoldable pub register_client :
        RelayLimitsConfig → PeerHandle → Text → SessionState → Net → Registered × SessionState × Net
    unfolding entry_clients clients_of
    register_client limits handle id s n =
        let clients = clients_of id s.clients in
        let s1 = record s { clients = entry_clients id s.clients } in
        if leb limits.max_clients_per_connection (length clients)
        then (err (str "Client connection limit exceeded"), s1, n)
        else (let s2 = record s {
          clients = insert id (insert handle.meta.peer_id handle clients) s1.clients;
        } in
            (ok (some id), s2, notify_control_locked net s2 (connected_text json id) n))

    -- The `match &handle.meta.kind` of `register`.
    unfoldable pub register_kind :
        RelayLimitsConfig
        → PeerHandle
        → PeerKind
        → SessionState
        → Net
        → Registered × SessionState × Net
    unfolding close_replaced
    register_kind limits handle v1_server s n =
        (ok none, record s { v1_server = some handle }, close_replaced s.v1_server n)
    register_kind limits handle v1_client s n =
        (ok none, record s { v1_client = some handle }, close_replaced s.v1_client n)
    register_kind limits handle v2_server_control s n =
        let s1 = record s { server_control = some handle } in
        let sync = OutboundMessage.text (sync_text json (collect_client_connection_ids s1)) in
        (ok none, s1, send_or_close net handle sync (close_replaced s.server_control n))
    register_kind limits handle (v2_server_data id) s n =
        let s1 = record s { server_data = insert id handle s.server_data } in
        let r = flush_pending_locked net s1 id handle (close_replaced (get id s.server_data) n) in
        (ok none, r.0, r.1)
    register_kind limits handle (v2_client id) s n = register_client limits handle id s n

    unfoldable pub register :
        RelayLimitsConfig → PeerHandle → SessionState → Net → Registered × SessionState × Net
    register limits handle s n =
        if leb limits.max_sockets_per_session (count_live_sockets s)
        then (err (str "Session socket limit exceeded"), s, n)
        else register_kind limits handle handle.meta.kind s n

    -- A ping on a control socket is answered on the current control socket, if it is the sender's.
    unfoldable pub answer_ping : PeerMeta → ℕ → Option PeerHandle → Net → Net
    answer_ping meta ts none n = n
    answer_ping meta ts (some control) n =
        if control.meta.peer_id == meta.peer_id
        then send_or_close net control (OutboundMessage.text (pong_text json ts)) n
        else n

    -- The `match (&meta.version, &meta.kind, frame)` of `handle_frame`; `ts` is `now_ms()`.
    unfoldable pub route_frame :
        PeerMeta
        → ℕ
        → RelayVersion
        → PeerKind
        → RelayFrame
        → SessionState
        → Net
        → SessionState × Net
    unfolding forward_slot forward_all answer_ping
    route_frame meta ts v1 v1_server frame s n = (s, forward_slot s.v1_client frame n)
    route_frame meta ts v1 v1_client frame s n = (s, forward_slot s.v1_server frame n)
    route_frame meta ts v2 v2_server_control (RelayFrame.text t) s n =
        (s, if text_is_ping json t then answer_ping meta ts s.server_control n else n)
    route_frame meta ts v2 v2_server_control (RelayFrame.binary b) s n = (s, n)
    route_frame meta ts v2 (v2_client id) frame s n = elim (get id s.server_data) [
      | some server ↦ (s, forward_frame net server frame n)
      | none ↦ (buffer_pending_locked s id frame, n)
    ]
    route_frame meta ts v2 (v2_server_data id) frame s n = elim (get id s.clients) [
      | some clients ↦ (s, forward_all (values clients) frame n)
      | none ↦ (s, n)
    ]
    route_frame meta ts _ _ frame s n = (s, n)

    unfoldable pub handle_frame :
        PeerMeta → ℕ → RelayFrame → SessionState → Net → SessionState × Net
    handle_frame meta ts frame s n = route_frame meta ts meta.version meta.kind frame s n

    -- The last client of a connection has gone.
    unfoldable pub end_connection : Text → SessionState → Net → SessionState × Net
    unfolding close_data
    end_connection id s n =
        let s1 = record s {
          clients = remove id s.clients;
          pending = remove id s.pending;
          server_data = remove id s.server_data;
        } in
        let n1 = close_data (get id s.server_data) n in
        (s1, notify_control_locked net s1 (disconnected_text json id) n1)

    -- The arm of `unregister` for a v2 client.
    unfoldable pub unregister_client : PeerId → Text → SessionState → Net → SessionState × Net
    unregister_client peer_id id s n = elim (get id s.clients) [
      | none ↦ (s, n)
      | some clients ↦
          let left = remove peer_id clients in
          let s1 = record s { clients = insert id left s.clients } in
          if is_empty left then end_connection id s1 n else (s1, n)
    ]

    unfoldable pub unregister_kind : PeerId → PeerKind → SessionState → Net → SessionState × Net
    unregister_kind peer_id v1_server s n =
        (record s { v1_server = clear_if_same s.v1_server peer_id }, n)
    unregister_kind peer_id v1_client s n =
        (record s { v1_client = clear_if_same s.v1_client peer_id }, n)
    unregister_kind peer_id v2_server_control s n =
        (record s { server_control = clear_if_same s.server_control peer_id }, n)
    unregister_kind peer_id (v2_client id) s n = unregister_client peer_id id s n
    unregister_kind peer_id (v2_server_data id) s n = unregister_data peer_id id s n

    unfoldable pub unregister : PeerMeta → SessionState → Net → SessionState × Net
    unregister meta s n = unregister_kind meta.peer_id meta.kind s n

  unfoldable pub handle_ping : PeerMeta → Bytes → SessionState → Net → Net
  unfolding ping_target
  handle_ping meta payload s n = elim (ping_target meta.peer_id meta.kind s) [
    | none ↦ n
    | some handle ↦ send_or_close net handle (pong payload) n
  ]
