-- ===== src/Server/Leaving.antt =====
-- How a socket of `run_peer` in crates/relay/src/server.rs leaves its session.
use node_access.Prelude.{
  ℕ, ◌⊎◌, ◌||◌, ◌≡◌, ◌≢◌, refl, sym, ap, ◌∙◌, Bool, Bool-cases, true, false, Option, Option-cases,
  none, some, inl, inr, List, [], ◌∷◌, Text, text_Eq, nat_eq, ◌==◌, arith, eq_self, is_empty, ltb,
  str,
}
use node_access.HashMap.{HashMap, get, insert, remove}
use node_access.HashMap.Laws.{get-insert, get-remove_self}
use node_access.Runtime.{Channels, Json}
use node_access.Session.State.{
  OutboundMessage, PeerId, PeerKind, v1_server, v1_client, v2_server_control, v2_server_data,
  v2_client, PeerMeta, PeerHandle, SessionState, RelayLimitsConfig,
}
use node_access.Session.Ops.{clear_if_same}
use node_access.Session.Handlers.{
  unregister, unregister_kind, unregister_client, unregister_data, holds_peer, end_connection,
  register, Registered,
}
use node_access.Protocol.{ok, err}
use node_access.Server.Peer.{
  Incoming, idle, ended, failed, closed_by_peer, text, binary, ping, pong, Window, Decision, frame,
  reply_ping, pass, stop, classify, admit, receive, count_message,
}
use node_access.Server.Socket.{
  Outcome, rejected, gone, World, Round, leave, proceed, peer_loop, after_register, run_peer,
}

unfoldable pub of_clients : PeerId → Option (HashMap PeerId PeerHandle) → Option PeerHandle
of_clients peer_id none = none
of_clients peer_id (some clients) = get peer_id clients

-- Where the session keeps the handle of a socket.
unfoldable pub held : PeerId → PeerKind → SessionState → Option PeerHandle
unfolding of_clients
held peer_id v1_server s = s.v1_server
held peer_id v1_client s = s.v1_client
held peer_id v2_server_control s = s.server_control
held peer_id (v2_server_data id) s = get id s.server_data
held peer_id (v2_client id) s = of_clients peer_id (get id s.clients)

-- The session has a handle of the socket.
abbrev pub Stands : PeerMeta → SessionState → Type 0
Stands meta s =
    (h : PeerHandle) × (held meta.peer_id meta.kind s ≡ some h) × (h.meta.peer_id ≡ meta.peer_id)

clear_if_same-other :
    (o : Option PeerHandle) (peer_id : PeerId) (h : PeerHandle)
    → clear_if_same o peer_id ≡ some h
    → h.meta.peer_id ≢ peer_id
unfolding clear_if_same
clear_if_same-other none peer_id h e = absurd (cc e)
clear_if_same-other (some x) peer_id h e = elim (Bool-cases (x.meta.peer_id == peer_id)) [
  | inl y ↦ absurd (ground (arith, rw y at e))
  | inr y ↦
      let same : some x ≡ some h = rw y at e in
      let x_is_h : x ≡ h = cc same in
      λ q. absurd (ground (arith, y, ap (λ (h : PeerHandle). h.meta.peer_id) x_is_h, q))
]

module _ (net : Channels OutboundMessage) (json : Json) where
  unregister_client-held :
      (peer_id : PeerId) (id : Text) (s : SessionState) (n : net.Net)
      → held peer_id (v2_client id) (unregister_client net json peer_id id s n).0 ≡ none
  unfolding held of_clients unregister_client end_connection
  unregister_client-held peer_id id s n = elim (Option-cases (get id s.clients)) [
    | inl e ↦ rw (unregister_client, e, of_clients) (rw (e, of_clients) refl)
    | inr (clients, e) ↦ elim (Bool-cases (is_empty (remove peer_id clients))) [
      | inl y ↦
          rw (unregister_client, e, y)
            (rw (get-remove_self id (insert id (remove peer_id clients) s.clients), of_clients)
              refl)
      | inr y ↦
          rw (unregister_client, e, y)
            (rw (get-insert id id (remove peer_id clients) s.clients, eq_self id, of_clients)
              (get-remove_self peer_id clients))
    ]
  ]

  unregister_data-held :
      (peer_id : PeerId) (id : Text) (s : SessionState) (n : net.Net) (h : PeerHandle)
      → held peer_id (v2_server_data id) (unregister_data net peer_id id s n).0 ≡ some h
      → h.meta.peer_id ≢ peer_id
  unfolding held unregister_data holds_peer
  unregister_data-held peer_id id s n h e = elim (Option-cases (get id s.server_data)) [
    | inl x ↦ absurd (
        let z = rw (x, holds_peer) at e in let z' : get id s.server_data ≡ some h = z in cc (z', x))
    | inr (d, x) ↦ elim (Bool-cases (d.meta.peer_id == peer_id)) [
      | inl y ↦
          absurd (let z = rw (x, holds_peer, y, get-remove_self id s.server_data) at e in cc z)
      | inr y ↦
          let z : some d ≡ some h = sym x ∙ rw (x, holds_peer, y) at e in
          let d_is_h : d ≡ h = cc z in
          λ q. absurd (ground (arith, y, ap (λ (h : PeerHandle). h.meta.peer_id) d_is_h, q))
    ]
  ]

  -- The session has no handle of a socket that has been unregistered.
  unregister_kind-held :
      (kind : PeerKind) (peer_id : PeerId) (s : SessionState) (n : net.Net) (h : PeerHandle)
      → held peer_id kind (unregister_kind net json peer_id kind s n).0 ≡ some h
      → h.meta.peer_id ≢ peer_id
  unfolding held unregister_kind
  unregister_kind-held v1_server peer_id s n h e = clear_if_same-other s.v1_server peer_id h e
  unregister_kind-held v1_client peer_id s n h e = clear_if_same-other s.v1_client peer_id h e
  unregister_kind-held v2_server_control peer_id s n h e =
      clear_if_same-other s.server_control peer_id h e
  unregister_kind-held (v2_server_data id) peer_id s n h e = unregister_data-held peer_id id s n h e
  unregister_kind-held (v2_client id) peer_id s n h e =
      let none_left = unregister_client-held peer_id id s n in absurd (cc (e, none_left))

-- An input on which the loop is left, whatever the window.
abbrev pub is_last : Incoming → Bool
is_last idle = true
is_last ended = true
is_last failed = true
is_last closed_by_peer = true
is_last _ = false

receive-stop :
    (limits : RelayLimitsConfig) (now : ℕ) (incoming : Incoming) (w : Window)
    → is_last incoming ≡ true
    → (c : Option (ℕ × Text)) × ((receive limits now incoming w).1 ≡ stop c)
unfolding receive admit classify
receive-stop limits now idle w l = (_, refl)
receive-stop limits now ended w l = (_, refl)
receive-stop limits now failed w l =
    elim (Bool-cases
      (ltb limits.max_messages_per_window (count_message limits now w).messages_in_window)) [
        | inl y ↦ (some (1008, str "Rate limit exceeded"), rw y refl)
        | inr y ↦ (none, rw y refl)
      ]
receive-stop limits now closed_by_peer w l =
    elim (Bool-cases
      (ltb limits.max_messages_per_window (count_message limits now w).messages_in_window)) [
        | inl y ↦ (some (1008, str "Rate limit exceeded"), rw y refl)
        | inr y ↦ (none, rw y refl)
      ]
receive-stop limits now (text t) w l = absurd (ground (arith, l))
receive-stop limits now (binary b) w l = absurd (ground (arith, l))
receive-stop limits now (ping b) w l = absurd (ground (arith, l))
receive-stop limits now (pong b) w l = absurd (ground (arith, l))

module _ (net : Channels OutboundMessage) (json : Json) (limits : RelayLimitsConfig) where
  -- One of the rounds has such an input.
  abbrev pub some_last : List (Round net json limits) → Bool
  some_last [] = false
  some_last (round ∷ rounds) = is_last round.incoming || some_last rounds

  -- The socket is gone, and the session has no handle of it.
  abbrev pub HasLeft : PeerMeta → Outcome × World net json limits → Type 0
  HasLeft meta r = (r.0 ≡ gone) × (¬ Stands meta r.1.0)

  leave-HasLeft :
      (handle : PeerHandle) (c : Option (ℕ × Text)) (world : World net json limits)
      → HasLeft handle.meta (leave net json limits handle c world)
  unfolding leave unregister
  leave-HasLeft handle c (s, n) = (
    refl,
    λ (h, e, same). unregister_kind-held net json handle.meta.kind handle.meta.peer_id s _ h e same,
  )

  proceed-HasLeft :
      (handle : PeerHandle) (ts : ℕ) (d : Decision)
      (go : World net json limits → Outcome × World net json limits) (world : World net json limits)
      → ((world : World net json limits) → HasLeft handle.meta (go world))
      → HasLeft handle.meta (proceed net json limits handle ts d go world)
  unfolding proceed
  proceed-HasLeft handle ts (frame f) go (s, n) k = k _
  proceed-HasLeft handle ts (reply_ping payload) go (s, n) k = k _
  proceed-HasLeft handle ts pass go world k = k world
  proceed-HasLeft handle ts (stop c) go world k = leave-HasLeft handle c world

  peer_loop-HasLeft :
      (handle : PeerHandle) (w : Window) (rounds : List (Round net json limits))
      (world : World net json limits)
      → some_last rounds ≡ true
      → HasLeft handle.meta (peer_loop net json limits handle w rounds world)
  unfolding peer_loop
  peer_loop-HasLeft handle w [] world l = absurd (ground (arith, l))
  peer_loop-HasLeft handle w (round ∷ rounds) world l = elim (Bool-cases (is_last round.incoming)) [
    | inl y ↦
        let (c, e) = receive-stop limits round.now round.incoming w y in
        rw (e, proceed) (leave-HasLeft handle c (round.others world))
    | inr y ↦ proceed-HasLeft handle round.now_ms _ _ (round.others world) (λ world.
        peer_loop-HasLeft handle (receive limits round.now round.incoming w).0 rounds world
          (rw y at l))
  ]

  -- A socket on which, in some round, nothing comes for the idle timeout, a read fails, or the peer
  -- closes or ends the stream, is at the end refused or gone, whatever else comes in and whatever
  -- others do to the session meanwhile; and where it is gone, the session has no handle of it in
  -- the place where it would keep one.
  pub run_peer_ends :
      (handle : PeerHandle) (now : ℕ) (rounds : List (Round net json limits))
      (world : World net json limits)
      → some_last rounds ≡ true
      → let r = run_peer net json limits handle now rounds world in
        HasLeft handle.meta r ⊎ ((reason : Text) × (r.0 ≡ rejected reason))
  unfolding run_peer after_register
  run_peer_ends handle now rounds (s, n) l = after (register net json limits handle s n)
    where
      after :
          (x : Registered × SessionState × net.Net)
          → let r = after_register net json limits handle now rounds x in
            HasLeft handle.meta r ⊎ ((reason : Text) × (r.0 ≡ rejected reason))
      after (err reason, s, n) = inr (reason, refl)
      after (ok nudge, s, n) = inl (peer_loop-HasLeft handle _ rounds (s, n) l)
