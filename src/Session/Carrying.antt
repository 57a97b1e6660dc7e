-- ===== src/Session/Carrying.antt =====
-- The frames of all sockets of a session of crates/relay/src/session.rs, in any order, and the
-- channel of one server data socket among them.
use node_access.Prelude.{length-append}
use node_access.Prelude.{
  ℕ, ◌+◌, ◌≤◌, ◌≡◌, ◌≢◌, refl, sym, ap, ◌∙◌, subst, Bool-cases, true, false, some, inl, inr, List,
  [], ◌∷◌, ◌++◌, append-nil, map, length, Text, nat_eq, text_Eq, text_eq_iff, ◌==◌, if◌then◌else◌,
  arith,
}
use node_access.HashMap.{get}
use node_access.Runtime.{Channels, Json}
use node_access.Protocol.{RelayVersion, v1, v2}
use node_access.Session.State.{
  OutboundMessage, PeerMeta, PeerKind, PeerHandle, v1_server, v1_client, v2_server_control,
  v2_server_data, v2_client, SessionState, RelayLimitsConfig, RelayFrame,
}
use node_access.Session.Ops.{to_outbound}
use node_access.Session.Handlers.{handle_frame, route_frame}
use node_access.Session.Effects.{Sends-other, has_room}
use node_access.Session.Delivery.{forward_frame-queued, Sends-capacity, Sends-is_closed}
use node_access.Session.Routing.{Counterpart, InSession, Sends-route_frame}
use node_access.Session.WellFormed.{WellFormed}
use node_access.Session.WellFormed.Frames.{handle_frame-WellFormed}
use node_access.Session.Arrivals.{
  Arrival, is_client, frames_of, counted, joined_frames, InSession-same, only_clients,
  route_frame-same,
}

module _ (net : Channels OutboundMessage) (json : Json) (limits : RelayLimitsConfig) where
  open net use {Net, queued, capacity, is_closed}

  -- The session holds the server data socket of the connection, and no other one has its channel.
  pub record Serves (id : Text) (server : PeerHandle) (s : SessionState) : Type 0 where
    pub held : get id s.server_data ≡ some server
    pub alone :
        (h : PeerHandle) → InSession h s → h.tx ≡ server.tx → h.meta.kind ≡ v2_server_data id

  -- Its channel takes so many more messages.
  pub record Takes (server : PeerHandle) (n : Net) (more : ℕ) : Type 0 where
    pub open_channel : is_closed server.tx n ≡ false
    pub room : length (queued server.tx n) + more ≤ capacity server.tx n

  module _ (id : Text) (server : PeerHandle) where
    -- What a frame adds to the queue of the socket.
    abbrev adds : RelayVersion → PeerKind → RelayFrame → List OutboundMessage
    adds version kind frame = if is_client id version kind then to_outbound frame ∷ [] else []

    apart :
        (meta : PeerMeta) (ts : ℕ) (version : RelayVersion) (kind : PeerKind) (frame : RelayFrame)
        (s : SessionState) (n : Net)
        → WellFormed limits s
        → Serves id server s
        → kind ≢ v2_client id
        → queued server.tx (route_frame net json meta ts version kind frame s n).1
          ≡ queued server.tx n
    apart meta ts version kind frame s n w serves other =
        Sends-other net server.tx
          (λ c (h, i, k, e) q.
            other (only_clients id kind (subst (Counterpart kind) (serves.alone h i (e ∙ q)) k)))
          (Sends-route_frame net json limits meta ts version kind frame s n w)

    to_server :
        (meta : PeerMeta) (ts : ℕ) (version : RelayVersion) (kind : PeerKind) (frame : RelayFrame)
        (s : SessionState) (n : Net) (more : ℕ)
        → WellFormed limits s
        → Serves id server s
        → Takes server n (length (adds version kind frame) + more)
        → queued server.tx (route_frame net json meta ts version kind frame s n).1
          ≡ queued server.tx n ++ adds version kind frame
    unfolding route_frame to_outbound
    to_server meta ts v1 v1_server frame s n more w serves t =
        apart meta ts v1 v1_server frame s n w serves (λ e. cc e) ∙ sym (append-nil _)
    to_server meta ts v1 v1_client frame s n more w serves t =
        apart meta ts v1 v1_client frame s n w serves (λ e. cc e) ∙ sym (append-nil _)
    to_server meta ts v1 v2_server_control frame s n more w serves t =
        apart meta ts v1 v2_server_control frame s n w serves (λ e. cc e) ∙ sym (append-nil _)
    to_server meta ts v1 (v2_client k) frame s n more w serves t =
        unfold route_frame in sym (append-nil _)
    to_server meta ts v1 (v2_server_data k) frame s n more w serves t =
        apart meta ts v1 (v2_server_data k) frame s n w serves (λ e. cc e) ∙ sym (append-nil _)
    to_server meta ts v2 v1_server frame s n more w serves t =
        apart meta ts v2 v1_server frame s n w serves (λ e. cc e) ∙ sym (append-nil _)
    to_server meta ts v2 v1_client frame s n more w serves t =
        apart meta ts v2 v1_client frame s n w serves (λ e. cc e) ∙ sym (append-nil _)
    to_server meta ts v2 v2_server_control frame s n more w serves t =
        apart meta ts v2 v2_server_control frame s n w serves (λ e. cc e) ∙ sym (append-nil _)
    to_server meta ts v2 (v2_server_data k) frame s n more w serves t =
        apart meta ts v2 (v2_server_data k) frame s n w serves (λ e. cc e) ∙ sym (append-nil _)
    to_server meta ts v2 (v2_client k) frame s n more w serves t = elim (Bool-cases (k == id)) [
      | inl y ↦
          let same : k ≡ id = (text_eq_iff k id).0 y in
          let held : get k s.server_data ≡ some server =
            ap (λ (j : Text). get j s.server_data) same ∙ serves.held in
          let fits = rw y at (t.room) in
          let free : has_room net server.tx n ≡ true = ground (arith, t.open_channel, fits) in
          rw (y, held, route_frame) (forward_frame-queued net server frame n ∙ rw free refl)
      | inr y ↦ rw y (
          apart meta ts v2 (v2_client k) frame s n w serves
            (λ e. absurd (let same : k ≡ id = cc e in ground (arith, y, same, text_eq_iff k id)))
          ∙ sym (append-nil _))
    ]

    -- One frame of any socket.
    one_frame :
        (a : Arrival) (s : SessionState) (n : Net) (more : ℕ)
        → WellFormed limits s
        → Serves id server s
        → Takes server n (length (adds a.meta.version a.meta.kind a.frame) + more)
        → let r = handle_frame net json a.meta a.ts a.frame s n in
          (queued server.tx r.1 ≡ queued server.tx n ++ adds a.meta.version a.meta.kind a.frame)
          × Serves id server r.0
          × Takes server r.1 more
          × WellFormed limits r.0
          × (r.0.server_data ≡ s.server_data)
    unfolding handle_frame
    one_frame a s n more w serves t =
        let new = adds a.meta.version a.meta.kind a.frame in
        let e = to_server a.meta a.ts a.meta.version a.meta.kind a.frame s n more w serves t in
        let same = route_frame-same net json a.meta a.ts a.meta.version a.meta.kind a.frame s n in
        let sends =
          Sends-route_frame net json limits a.meta a.ts a.meta.version a.meta.kind a.frame s n w in
        (
          e,
          record {
            held = ap (get id) same.same_data ∙ serves.held;
            alone = λ h i q. serves.alone h (InSession-same same i) q;
          },
          record {
            open_channel = Sends-is_closed net server.tx sends ∙ t.open_channel;
            room = omega (
              arith,
              t.room,
              Sends-capacity net server.tx sends,
              ap length e,
              length-append (queued server.tx n) new,
            );
          },
          handle_frame-WellFormed net json limits a.meta a.ts a.frame s n w,
          same.same_data,
        )

  -- The frames of a session's sockets, one after the other.
  unfoldable pub handle_arrivals : List Arrival → SessionState × Net → SessionState × Net
  unfolding handle_frame
  handle_arrivals [] r = r
  handle_arrivals (a ∷ arrivals) r =
      handle_arrivals arrivals (handle_frame net json a.meta a.ts a.frame r.0 r.1)

  -- However the frames of all sockets of a session follow each other, the channel of a connection's
  -- server data socket gets exactly the frames of the connection's v2 clients, unchanged and in
  -- their order, behind what was queued, and nothing else; and the session keeps its server data
  -- sockets. The session is well formed, no other kind of socket has that channel, and the channel
  -- is open and has room for these frames.
  pub arrivals_carried :
      (id : Text) (server : PeerHandle) (arrivals : List Arrival) (s : SessionState) (n : Net)
      → WellFormed limits s
      → Serves id server s
      → Takes server n (length (frames_of id arrivals))
      → let r = handle_arrivals arrivals (s, n) in
        (queued server.tx r.1 ≡ queued server.tx n ++ map to_outbound (frames_of id arrivals))
        × (r.0.server_data ≡ s.server_data)
  unfolding handle_arrivals
  arrivals_carried id server [] s n w serves t = (sym (append-nil _), refl)
  arrivals_carried id server (a ∷ arrivals) s n w serves t =
      let rest = frames_of id arrivals in
      let r = handle_frame net json a.meta a.ts a.frame s n in
      let (e, serves', t', w', same) = one_frame id server a s n (length rest) w serves (
        subst (Takes server n) (counted (is_client id a.meta.version a.meta.kind) a.frame rest)
          t) in
      let (e', same') = arrivals_carried id server arrivals r.0 r.1 w' serves' t' in
      (
        e'
            ∙ ap (λ (q : List OutboundMessage). q ++ map to_outbound rest) e
            ∙ joined_frames (is_client id a.meta.version a.meta.kind) a.frame rest
                (queued server.tx n),
        same' ∙ same,
      )
