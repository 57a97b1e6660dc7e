-- ===== src/Session/Forwarding.antt =====
-- Frames that are forwarded at once by `handle_frame` of crates/relay/src/session.rs.
use node_access.Prelude.{
  ◌&&◌, ◌==◌, ℕ, ◌≡◌, refl, some, [], ◌∷◌, ◌++◌, Text, nat_eq, text_Eq, if◌then◌else◌,
}
use node_access.HashMap.{HashMap, get, values}
use node_access.Runtime.{Channels, Json}
use node_access.Protocol.{v2}
use node_access.Session.State.{
  OutboundMessage, PeerMeta, PeerHandle, PeerId, v2_server_data, v2_client, SessionState,
  RelayFrame,
}
use node_access.Session.Ops.{to_outbound, forward_frame}
use node_access.Session.Handlers.{handle_frame, route_frame, forward_all}
use node_access.Session.Effects.{has_room, send_or_close-Offered}
use node_access.Session.Delivery.{Distinct, channels, each-queued, forward_frame-Offers}
use node_access.Session.Routing.{Elem}

module _ (net : Channels OutboundMessage) (json : Json) (meta : PeerMeta) (ts : ℕ)
    (frame : RelayFrame) (s : SessionState) (n : net.Net) (id : Text)
    (version : meta.version ≡ v2) where
  open net use {queued}

  -- A frame of a server data socket goes, unchanged, to the end of the queue of every client of its
  -- connection whose channel has room, where the clients have channels of their own; a client
  -- without room misses it. The session stays as it is.
  pub server_frame_reaches_clients :
      (clients : HashMap PeerId PeerHandle) (h : PeerHandle)
      → meta.kind ≡ v2_server_data id
      → get id s.clients ≡ some clients
      → Distinct (channels (values clients))
      → Elem h (values clients)
      → let r = handle_frame net json meta ts frame s n in
        (queued h.tx r.1 ≡ (
          if has_room net h.tx n then queued h.tx n ++ to_outbound frame ∷ [] else queued h.tx n))
        × (r.0 ≡ s)
  unfolding handle_frame route_frame forward_all
  server_frame_reaches_clients clients h kind e d m =
      simp (version, kind, e, route_frame)
        (each-queued net _ _ (forward_frame-Offers net frame) (values clients) n h d m, refl)

  -- A frame of a v2 client whose connection has a server data socket goes, unchanged, to the end of
  -- that socket's queue if its channel has room, and nowhere else; the session stays as it is.
  pub client_frame_reaches_server :
      (server : PeerHandle) (d : ℕ)
      → meta.kind ≡ v2_client id
      → get id s.server_data ≡ some server
      → let r = handle_frame net json meta ts frame s n in
        (queued d r.1 ≡ (
          if server.tx == d && has_room net server.tx n
          then queued d n ++ to_outbound frame ∷ []
          else queued d n))
        × (r.0 ≡ s)
  unfolding handle_frame route_frame forward_frame
  client_frame_reaches_server server d kind e =
      simp (version, kind, e, route_frame)
        (send_or_close-Offered net server (to_outbound frame) n d, refl)
