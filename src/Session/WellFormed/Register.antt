-- ===== src/Session/WellFormed/Register.antt =====
-- `register` keeps a session well formed.
use node_access.Prelude.{
  ◌+◌, ◌≡◌, ◌≤◌, ◌<◌, refl, true, [], length, Text, nat_eq, text_Eq, leb, arith, Bool-cases,
  Option-cases, inl, inr, text_eq_iff,
}
use node_access.HashMap.{HashMap, get, insert, sum_by}
use node_access.HashMap.Laws.{
  get-insert, get-remove, sum_by-insert, length-insert, length-insert_pos, insert-insert,
}
use node_access.HashMap.Entries.{Entries, Entries-insert, Entries-remove, Entries-get}
use node_access.Runtime.{Channels, Json}
use node_access.Session.State.{
  OutboundMessage, PeerHandle, PeerId, PeerKind, v1_server, v1_client, v2_server_control,
  v2_server_data, v2_client, SessionState, RelayLimitsConfig,
}
use node_access.Session.Ops.{count_live_sockets, flush_pending_locked, from_slot}
use node_access.Session.Handlers.{
  register, register_kind, register_client, clients_of, entry_clients,
}
use node_access.Session.WellFormed.{IsClient, IsConnection, WellFormed}

module _ (net : Channels OutboundMessage) (json : Json) (limits : RelayLimitsConfig) where
  open net use {Net}

  -- Under the socket limit the new session may have one socket more.
  abbrev HasRoom : SessionState → Type 0
  HasRoom s = count_live_sockets s < limits.max_sockets_per_session

  -- One data socket more or the same number, and no frame waits for its connection any more.
  flush-WellFormed :
      (id : Text) (h : PeerHandle) (s : SessionState) (n : Net)
      → h.meta.kind ≡ v2_server_data id
      → HasRoom s
      → WellFormed limits s
      → WellFormed limits
          (flush_pending_locked net (record s { server_data = insert id h s.server_data }) id h n).0
  unfolding count_live_sockets flush_pending_locked
  flush-WellFormed id h s n typed room w = elim (Option-cases (get id s.pending)) [
    | inl e ↦
        rw (e, flush_pending_locked)
          (record {
            at_v1_server = w.at_v1_server;
            at_v1_client = w.at_v1_client;
            at_control = w.at_control;
            at_data = Entries-insert _ id h s.server_data typed w.at_data;
            at_clients = w.at_clients;
            at_pending = w.at_pending;
            waiting = λ j fs q.
                ground (
                  arith,
                  get-insert id j h s.server_data,
                  w.waiting j fs q,
                  text_eq_iff id j,
                  e,
                  q,
                );
            sockets = omega (arith, length-insert id h s.server_data, room);
          })
    | inr (frames, e) ↦
        rw (e, flush_pending_locked)
          (record {
            at_v1_server = w.at_v1_server;
            at_v1_client = w.at_v1_client;
            at_control = w.at_control;
            at_data = Entries-insert _ id h s.server_data typed w.at_data;
            at_clients = w.at_clients;
            at_pending = Entries-remove _ id s.pending w.at_pending;
            waiting = λ j fs q. ground (
              arith,
              get-insert id j h s.server_data,
              get-remove id j s.pending,
              w.waiting j fs,
              text_eq_iff id j,
              q,
            );
            sockets = omega (arith, length-insert id h s.server_data, room);
          })
  ]

  clients_of-typed :
      (id : Text) (s : SessionState)
      → WellFormed limits s
      → Entries (IsClient id) (clients_of id s.clients)
  unfolding clients_of
  clients_of-typed id s w = elim (Option-cases (get id s.clients)) [
    | inl e ↦ rw (e, clients_of) tt
    | inr (c, e) ↦ rw (e, clients_of) (Entries-get _ id s.clients w.at_clients e).typed
  ]

  -- The client joins its connection, which is made if it was not there.
  joined-IsConnection :
      (id : Text) (h : PeerHandle) (clients : HashMap PeerId PeerHandle)
      → h.meta.kind ≡ v2_client id
      → Entries (IsClient id) clients
      → length clients < limits.max_clients_per_connection
      → IsConnection limits id (insert h.meta.peer_id h clients)
  joined-IsConnection id h clients typed all room = record {
    typed = Entries-insert _ h.meta.peer_id h clients (typed, refl) all;
    inhabited = length-insert_pos h.meta.peer_id h clients;
    within = omega (arith, length-insert h.meta.peer_id h clients);
  }

  -- The entry made first is replaced by the one with the client.
  insert-entry_clients :
      (id : Text) (m : HashMap PeerId PeerHandle) (s : SessionState)
      → insert id m (entry_clients id s.clients) ≡ insert id m s.clients
  unfolding entry_clients
  insert-entry_clients id m s = elim (Option-cases (get id s.clients)) [
    | inl e ↦ rw (e, entry_clients) (insert-insert id m [] s.clients)
    | inr (c, e) ↦ rw (e, entry_clients)
  ]

  joined_sockets :
      (id : Text) (h : PeerHandle) (s : SessionState)
      → sum_by length (insert id (insert h.meta.peer_id h (clients_of id s.clients)) s.clients)
        ≤ sum_by length s.clients + 1
  unfolding clients_of
  joined_sockets id h s = ground (
    arith,
    sum_by-insert length id (insert h.meta.peer_id h (clients_of id s.clients)) s.clients,
    length-insert h.meta.peer_id h (clients_of id s.clients),
  )

  -- At the limit the connection has clients, so no entry is made.
  pub entry_clients_full :
      (id : Text) (s : SessionState)
      → 0 < limits.max_clients_per_connection
      → leb limits.max_clients_per_connection (length (clients_of id s.clients)) ≡ true
      → entry_clients id s.clients ≡ s.clients
  unfolding clients_of entry_clients
  entry_clients_full id s some_room full = ground arith

  register_client-WellFormed :
      (id : Text) (h : PeerHandle) (s : SessionState) (n : Net)
      → h.meta.kind ≡ v2_client id
      → 0 < limits.max_clients_per_connection
      → HasRoom s
      → WellFormed limits s
      → WellFormed limits (register_client net json limits h id s n).1
  unfolding register_client count_live_sockets
  register_client-WellFormed id h s n typed some_room room w =
      elim (Bool-cases (leb limits.max_clients_per_connection (length (clients_of id s.clients)))) [
        | inl full ↦ rw (full, entry_clients_full id s some_room full) w
        | inr free ↦
            rw (free, insert-entry_clients id (insert h.meta.peer_id h (clients_of id s.clients)) s)
              (record {
                at_v1_server = w.at_v1_server;
                at_v1_client = w.at_v1_client;
                at_control = w.at_control;
                at_data = w.at_data;
                at_clients =
                    Entries-insert _ id _ s.clients
                      (joined-IsConnection id h _ typed (clients_of-typed id s w) (ground arith))
                      w.at_clients;
                at_pending = w.at_pending;
                waiting = w.waiting;
                sockets = omega (arith, room, joined_sockets id h s);
              })
      ]

  register_kind-WellFormed :
      (h : PeerHandle) (kind : PeerKind) (s : SessionState) (n : Net)
      → h.meta.kind ≡ kind
      → 0 < limits.max_clients_per_connection
      → HasRoom s
      → WellFormed limits s
      → WellFormed limits (register_kind net json limits h kind s n).1
  unfolding register_kind count_live_sockets from_slot
  register_kind-WellFormed h v1_server s n typed some_room room w = record {
    at_v1_server = typed;
    at_v1_client = w.at_v1_client;
    at_control = w.at_control;
    at_data = w.at_data;
    at_clients = w.at_clients;
    at_pending = w.at_pending;
    waiting = w.waiting;
    sockets = ground (arith, room);
  }
  register_kind-WellFormed h v1_client s n typed some_room room w = record {
    at_v1_server = w.at_v1_server;
    at_v1_client = typed;
    at_control = w.at_control;
    at_data = w.at_data;
    at_clients = w.at_clients;
    at_pending = w.at_pending;
    waiting = w.waiting;
    sockets = ground (arith, room);
  }
  register_kind-WellFormed h v2_server_control s n typed some_room room w = record {
    at_v1_server = w.at_v1_server;
    at_v1_client = w.at_v1_client;
    at_control = typed;
    at_data = w.at_data;
    at_clients = w.at_clients;
    at_pending = w.at_pending;
    waiting = w.waiting;
    sockets = ground (arith, room);
  }
  register_kind-WellFormed h (v2_server_data id) s n typed some_room room w =
      flush-WellFormed id h s _ typed room w
  register_kind-WellFormed h (v2_client id) s n typed some_room room w =
      register_client-WellFormed id h s n typed some_room room w

  -- Registering a handle keeps the session well formed, be it accepted or refused, where the limit
  -- on the clients of a connection is not zero.
  pub register-WellFormed :
      (h : PeerHandle) (s : SessionState) (n : Net)
      → 0 < limits.max_clients_per_connection
      → WellFormed limits s
      → WellFormed limits (register net json limits h s n).1
  unfolding register
  register-WellFormed h s n some_room w =
      elim (Bool-cases (leb limits.max_sockets_per_session (count_live_sockets s))) [
        | inl full ↦ rw full w
        | inr free ↦
            rw free (register_kind-WellFormed h h.meta.kind s n refl some_room (ground arith) w)
      ]
