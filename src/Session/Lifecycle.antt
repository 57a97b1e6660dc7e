-- ===== src/Session/Lifecycle.antt =====
-- What registering and unregistering a socket does in crates/relay/src/session.rs, branch by
-- branch.
use node_access.Session.Effects.{
  try_send-Offered, has_room, send_or_close-Offered, Told, notify_control_locked-Told,
}
use node_access.HashMap.Laws.{get-remove, get-remove_self, remove-insert}
use node_access.Session.Delivery.{close_handle-Offers, each-queued, Distinct, channels}
use node_access.Prelude.{
  ℕ, ◌≡◌, ◌≢◌, ◌≤◌, ◌<◌, refl, ◌∙◌, true, Option, none, some, [], ◌∷◌, ◌++◌, Text, str, nat_eq,
  text_Eq, text_eq_iff, ◌⊎◌, Bool-cases, inl, inr, arith, leb, leb→le, length, eqb_iff, is_empty,
}
use node_access.HashMap.{HashMap, get, remove, values}
use node_access.Runtime.{Channels, Json, full}
use node_access.Protocol.{err}
use node_access.Session.State.{
  OutboundMessage, close, PeerMeta, PeerKind, PeerHandle, PeerId, v1_server, v1_client,
  v2_server_control, v2_server_data, v2_client, SessionState, RelayLimitsConfig,
}
use node_access.Session.Ops.{
  send_or_close, close_handle, clear_if_same, count_live_sockets, disconnected_text,
}
use node_access.Session.Handlers.{
  register, register_kind, register_client, clients_of, unregister, unregister_kind,
  unregister_data, unregister_client, end_connection, holds_peer, close_clients, close_all,
  close_data, ping_target,
}
use node_access.Session.Routing.{Elem}
use node_access.Session.WellFormed.Register.{entry_clients_full}

-- Why a registration is refused.
abbrev pub OverLimit : RelayLimitsConfig → PeerHandle → SessionState → Type 0
OverLimit limits h s =
    (limits.max_sockets_per_session ≤ count_live_sockets s)
    ⊎ ((id : Text) × (h.meta.kind ≡ v2_client id)
        × (limits.max_clients_per_connection ≤ length (clients_of id s.clients)))

module _ (net : Channels OutboundMessage) (json : Json) (limits : RelayLimitsConfig) where
  open net use {Net, queued, try_send, is_closed, capacity}

  refused_kind :
      (h : PeerHandle) (kind : PeerKind) (s : SessionState) (n : Net) (reason : Text)
      → 0 < limits.max_clients_per_connection
      → (register_kind net json limits h kind s n).0 ≡ err reason
      → ((id : Text) × (kind ≡ v2_client id)
          × (limits.max_clients_per_connection ≤ length (clients_of id s.clients)))
        × ((register_kind net json limits h kind s n).1 ≡ s)
        × ((register_kind net json limits h kind s n).2 ≡ n)
  unfolding register_kind register_client
  refused_kind h v1_server s n reason some_room e = cc
  refused_kind h v1_client s n reason some_room e = cc
  refused_kind h v2_server_control s n reason some_room e = cc
  refused_kind h (v2_server_data id) s n reason some_room e = cc
  refused_kind h (v2_client id) s n reason some_room e =
      elim (Bool-cases (leb limits.max_clients_per_connection (length (clients_of id s.clients)))) [
        | inl y ↦
            rw (y, entry_clients_full net json limits id s some_room y)
              ((id, refl, leb→le _ _ y), refl, refl)
        | inr y ↦ let bad = rw y at e in absurd (cc bad)
      ]

  -- Where the limit on the clients of a connection is not zero, a registration that is refused
  -- finds the session at its socket limit, or comes from a v2 client whose connection is at its
  -- client limit; and it changes neither the session nor any channel.
  pub register_refused :
      (h : PeerHandle) (s : SessionState) (n : Net) (reason : Text)
      → 0 < limits.max_clients_per_connection
      → (register net json limits h s n).0 ≡ err reason
      → OverLimit limits h s
        × ((register net json limits h s n).1 ≡ s)
        × ((register net json limits h s n).2 ≡ n)
  unfolding register
  register_refused h s n reason some_room e =
      elim (Bool-cases (leb limits.max_sockets_per_session (count_live_sockets s))) [
        | inl y ↦ rw y (inl (leb→le _ _ y), refl, refl)
        | inr y ↦
            let r = refused_kind h h.meta.kind s n reason some_room (rw y at e) in
            rw y (inr r.0, r.1, r.2)
      ]

  -- A message sent to a channel that is full is lost, and so is the close of the slow consumer
  -- behind it: no queue of the network changes.
  pub send_or_close_full :
      (h : PeerHandle) (m : OutboundMessage) (n : Net) (d : ℕ)
      → (try_send h.tx m n).1 ≡ full
      → queued d (send_or_close net h m n) ≡ queued d n
  send_or_close_full h m n d e =
      ground (arith, send_or_close-Offered net h m n d, net.send_answer h.tx m n, e)

  -- The holder of the place of a peer's kind is another peer.
  abbrev Replaced : PeerMeta → SessionState → Type 0
  Replaced meta s =
      (current : PeerHandle) × (ping_target meta.peer_id meta.kind s ≡ some current)
      × (current.meta.peer_id ≢ meta.peer_id)

  clear_other :
      (slot : Option PeerHandle) (peer_id : PeerId) (current : PeerHandle)
      → slot ≡ some current
      → current.meta.peer_id ≢ peer_id
      → clear_if_same slot peer_id ≡ slot
  unfolding clear_if_same
  clear_other slot peer_id current e ne =
      rw (e, clear_if_same) (ground (arith, eqb_iff current.meta.peer_id peer_id, ne))

  unregister-Replaced_kind :
      (peer_id : PeerId) (kind : PeerKind) (s : SessionState) (n : Net) (current : PeerHandle)
      → ((id : Text) → kind ≢ v2_client id)
      → ping_target peer_id kind s ≡ some current
      → current.meta.peer_id ≢ peer_id
      → (unregister_kind net json peer_id kind s n).0 ≡ s
  unfolding unregister_kind unregister_data holds_peer ping_target
  unregister-Replaced_kind peer_id v1_server s n current k e ne =
      rw (clear_other s.v1_server peer_id current e ne)
  unregister-Replaced_kind peer_id v1_client s n current k e ne =
      rw (clear_other s.v1_client peer_id current e ne)
  unregister-Replaced_kind peer_id v2_server_control s n current k e ne =
      rw (clear_other s.server_control peer_id current e ne)
  unregister-Replaced_kind peer_id (v2_server_data id) s n current k e ne =
      rw (e, holds_peer) (ground (arith, eqb_iff current.meta.peer_id peer_id, ne))
  unregister-Replaced_kind peer_id (v2_client id) s n current k e ne = absurd (k id refl)

  -- Unregistering a v1, control or server data socket whose place another peer has taken leaves the
  -- session as it is.
  pub unregister-Replaced :
      (meta : PeerMeta) (s : SessionState) (n : Net)
      → ((id : Text) → meta.kind ≢ v2_client id)
      → Replaced meta s
      → (unregister net json meta s n).0 ≡ s
  unfolding unregister
  unregister-Replaced meta s n k (current, e, ne) =
      unregister-Replaced_kind meta.peer_id meta.kind s n current k e ne

  -- Unregistering a server data socket that another one has replaced closes every client of the
  -- connection all the same: the close with code 1012 is put into the queue of each client whose
  -- channel has room, where the clients have channels of their own.
  pub unregister-Replaced_data :
      (meta : PeerMeta) (s : SessionState) (n : Net) (id : Text)
      (clients : HashMap PeerId PeerHandle) (h : PeerHandle)
      → meta.kind ≡ v2_server_data id
      → Replaced meta s
      → get id s.clients ≡ some clients
      → Distinct (channels (values clients))
      → Elem h (values clients)
      → has_room net h.tx n ≡ true
      → queued h.tx (unregister net json meta s n).1
        ≡ queued h.tx n ++ close 1012 (str "Server disconnected") ∷ []
  unfolding unregister unregister_kind unregister_data close_clients close_all
  unregister-Replaced_data meta s n id clients h kind r e d m room =
      simp (kind, e)
        (each-queued net _ _ (close_handle-Offers net 1012 (str "Server disconnected"))
            (values clients) n h d m
          ∙ rw room)

  close_data-Told :
      (server : Option PeerHandle) (n : Net)
      → Told net server (close 1001 (str "Client disconnected")) n (close_data net server n)
  unfolding close_data close_handle
  close_data-Told none n = refl
  close_data-Told (some server) n =
      try_send-Offered net server.tx (close 1001 (str "Client disconnected")) n

  -- What is removed for one connection is not removed for another.
  get-remove_other {ℓ} :
      {V : Type ℓ} (id other : Text) (m : HashMap Text V)
      → id ≢ other
      → get other (remove id m) ≡ get other m
  get-remove_other id other m ne = ground (arith, get-remove id other m, text_eq_iff id other, ne)

  -- When the only client of a connection leaves, the connection has no clients, no waiting frames
  -- and no server data socket any more, whether it had the last two or not; other connections keep
  -- theirs, and the session its control socket. The close 1001 is offered to the server data
  -- socket, if there was one, and after that the message that the connection is over to the control
  -- socket, if there is one: each is put behind the queue of the socket's channel if the channel has
  -- room, and no other queue changes.
  pub unregister_last_client :
      (meta : PeerMeta) (s : SessionState) (n : Net) (id : Text)
      (clients : HashMap PeerId PeerHandle)
      → meta.kind ≡ v2_client id
      → get id s.clients ≡ some clients
      → remove meta.peer_id clients ≡ []
      → let r = unregister net json meta s n in
        (get id (r.0).clients ≡ none)
        × (get id (r.0).pending ≡ none)
        × (get id (r.0).server_data ≡ none)
        × ((other : Text)
            → id ≢ other
            → (get other (r.0).clients ≡ get other s.clients)
              × (get other (r.0).pending ≡ get other s.pending)
              × (get other (r.0).server_data ≡ get other s.server_data))
        × ((r.0).server_control ≡ s.server_control)
        × (closed : Net) × Told net
            (get id s.server_data)
            (close 1001 (str "Client disconnected"))
            n
            closed
        × Told net s.server_control (OutboundMessage.text (disconnected_text json id)) closed r.1
  unfolding unregister unregister_kind unregister_client is_empty end_connection
  unregister_last_client meta s n id clients kind e last =
      let closed = close_data net (get id s.server_data) n in
      simp (kind, e, unregister_client, last, is_empty, remove-insert)
        (
          get-remove_self id s.clients,
          get-remove_self id s.pending,
          get-remove_self id s.server_data,
          λ other ne. (
            get-remove_other id other s.clients ne,
            get-remove_other id other s.pending ne,
            get-remove_other id other s.server_data ne,
          ),
          refl,
          closed,
          close_data-Told (get id s.server_data) n,
          notify_control_locked-Told net s.server_control _ (disconnected_text json id) closed refl,
        )
