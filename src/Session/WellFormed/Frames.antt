-- ===== src/Session/WellFormed/Frames.antt =====
-- `handle_frame` keeps a session well formed.
use node_access.Prelude.{
  ℕ, ◌≡◌, none, ◌++◌, [], ◌∷◌, Text, nat_eq, text_Eq, arith, Option-cases, inl, inr, text_eq_iff,
}
use node_access.HashMap.{get}
use node_access.HashMap.Laws.{get-insert}
use node_access.HashMap.Entries.{Entries-insert}
use node_access.Runtime.{Channels, Json}
use node_access.Protocol.{RelayVersion, v1, v2}
use node_access.Session.State.{
  OutboundMessage, PeerMeta, PeerKind, v1_server, v2_server_control, v2_server_data, v2_client,
  SessionState, RelayLimitsConfig, RelayFrame,
}
use node_access.Session.Ops.{count_live_sockets, buffer_pending_locked, or_default, pop_excess}
use node_access.Session.Buffer.{length-pop_excess-le, length-pop_excess_pos}
use node_access.Session.Handlers.{handle_frame, route_frame}
use node_access.Session.WellFormed.{IsBuffer, WellFormed}

module _ (limits : RelayLimitsConfig) where
  buffer-WellFormed :
      (id : Text) (frame : RelayFrame) (s : SessionState)
      → get id s.server_data ≡ none
      → WellFormed limits s
      → WellFormed limits (buffer_pending_locked s id frame)
  unfolding buffer_pending_locked count_live_sockets
  buffer-WellFormed id frame s absent w = record {
    at_v1_server = w.at_v1_server;
    at_v1_client = w.at_v1_client;
    at_control = w.at_control;
    at_data = w.at_data;
    at_clients = w.at_clients;
    at_pending =
        Entries-insert IsBuffer id _ s.pending
          (length-pop_excess_pos _ frame, length-pop_excess-le _) w.at_pending;
    waiting = λ j fs q. ground (
      arith,
      get-insert id j (pop_excess (or_default (get id s.pending) ++ frame ∷ [])) s.pending,
      w.waiting j fs,
      text_eq_iff id j,
      absent,
      q,
    );
    sockets = w.sockets;
  }

module _ (net : Channels OutboundMessage) (json : Json) (limits : RelayLimitsConfig) where
  open net use {Net}

  route_frame-WellFormed :
      (meta : PeerMeta) (ts : ℕ) (version : RelayVersion) (kind : PeerKind) (frame : RelayFrame)
      (s : SessionState) (n : Net)
      → WellFormed limits s
      → WellFormed limits (route_frame net json meta ts version kind frame s n).0
  unfolding route_frame
  route_frame-WellFormed meta ts v1 v1_server frame s n w = w
  route_frame-WellFormed meta ts v2 (v2_client id) frame s n w =
      elim (Option-cases (get id s.server_data)) [
        | inl absent ↦ rw (absent, route_frame) (buffer-WellFormed limits id frame s absent w)
        | inr (h, e) ↦ rw (e, route_frame) w
      ]
  route_frame-WellFormed meta ts v2 (v2_server_data id) frame s n w =
      elim (Option-cases (get id s.clients)) [
        | inl absent ↦ rw (absent, route_frame) w
        | inr (c, e) ↦ rw (e, route_frame) w
      ]
  route_frame-WellFormed meta ts v2 v2_server_control (RelayFrame.text t) s n w = w
  route_frame-WellFormed meta ts v2 v2_server_control (RelayFrame.binary b) s n w = w
  route_frame-WellFormed meta ts _ _ frame s n w = w

  -- Routing a frame keeps the session well formed.
  pub handle_frame-WellFormed :
      (meta : PeerMeta) (ts : ℕ) (frame : RelayFrame) (s : SessionState) (n : Net)
      → WellFormed limits s
      → WellFormed limits (handle_frame net json meta ts frame s n).0
  unfolding handle_frame
  handle_frame-WellFormed meta ts frame s n w =
      route_frame-WellFormed meta ts meta.version meta.kind frame s n w
