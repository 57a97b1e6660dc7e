-- ===== src/Carriage.antt =====
-- A multiplexed connection through the relay: the messages that one end's write loop makes
-- (crates/node-access-3role/src/mux.rs) pass the loop of `run_peer` (crates/relay/src/server.rs) with
-- its limits, `handle_frame` (crates/relay/src/session.rs) and the write task of the other socket, and
-- the other end's read loop takes them.
mod Tests
use node_access.Prelude.{
  ℕ, ◌+◌, ◌≡◌, ◌≤◌, ◌<◌, refl, ap, ◌∙◌, true, false, Option, none, some, Option-cases, inl, inr,
  List, [], ◌∷◌, ◌++◌, map, All, length, length-map, Text, text_Eq, arith,
}
use node_access.HashMap.{get}
use node_access.Runtime.{Channels, Json}
use node_access.Protocol.{v2}
use node_access.Session.State.{
  OutboundMessage, text, binary, pong, close, RelayFrame, PeerHandle, v2_client, SessionState,
  RelayLimitsConfig,
}
use node_access.Session.Ops.{to_outbound, forward_frame, forward_frames}
use node_access.Session.Handlers.{handle_frame, route_frame}
use node_access.Session.Delivery.{forward_frames-queued}
use node_access.Server.Peer.{Incoming, Window, Decision, receive, count_message}
use node_access.Server.Socket.{Outcome, waiting, Round, World, peer_loop, proceed}
use node_access.Mux.Frame.{
  Bytes, OpenRequest, ControlMessage, MuxFrame, Serde, frame_stream, u32_mod, encode_frame,
}
use node_access.Mux.Crypto.{Aead, FrameCrypto, wrap}
use node_access.Mux.Reader.{Reader, dispatch_all}
use node_access.Mux.Loops.{
  WsMessage, failed, other, write_loop, read_loop, written, Agree, read_loop-write_loop, skipped,
  broken_off, written_on,
}

-- What the write task makes of a message; the reader of the other end tells binary ones from
-- others.
unfoldable pub to_message : OutboundMessage → WsMessage
to_message (text t) = other
to_message (binary bytes) = WsMessage.binary bytes
to_message (pong bytes) = other
to_message (close code reason) = other

frames_of : List WsMessage → List RelayFrame
frames_of [] = []
frames_of (WsMessage.binary bytes ∷ messages) = RelayFrame.binary bytes ∷ frames_of messages
frames_of (_ ∷ messages) = frames_of messages

abbrev IsBinary : WsMessage → Type 0
IsBinary (WsMessage.binary bytes) = Unit
IsBinary _ = ⊥

through_relay :
    (messages : List WsMessage)
    → All IsBinary messages
    → (map to_message (map to_outbound (frames_of messages)) ≡ messages)
      × (length (frames_of messages) ≡ length messages)
unfolding to_message frames_of to_outbound
through_relay [] h = (refl, refl)
through_relay (WsMessage.binary bytes ∷ messages) (h, hs) =
    let (e, n) = through_relay messages hs in
    (ap (◌∷◌ (WsMessage.binary bytes)) e, omega (arith, n))
through_relay (failed ∷ messages) (h, hs) = elim h [ ]
through_relay (other ∷ messages) (h, hs) = elim h [ ]

-- The bytes of a message.
unfoldable pub message_bytes : WsMessage → ℕ
message_bytes (WsMessage.binary bytes) = length bytes
message_bytes _ = 0

-- A message within the limits, at any time, is handed to the session and counted.
received :
    (limits : RelayLimitsConfig) (now k : ℕ) (bytes : Bytes) (w : Window)
    → length bytes ≤ limits.max_frame_bytes
    → w.messages_in_window + (1 + k) ≤ limits.max_messages_per_window
    → (w1 : Window) × (receive limits now (Incoming.binary bytes) w
        ≡ (w1, Decision.frame (RelayFrame.binary bytes)))
      × (w1.messages_in_window + k ≤ limits.max_messages_per_window)
unfolding receive
received limits now k bytes w small fits =
    (count_message limits now w, ground arith, unfold count_message in ground arith)

module _ (net : Channels OutboundMessage) (json : Json) (limits : RelayLimitsConfig) where
  open net use {Net, queued, capacity, is_closed}

  -- The messages come in on a socket of the relay, one in each round, at any times, and nothing else
  -- happens in its session meanwhile.
  abbrev pub Arrive : List WsMessage → List (Round net json limits) → Type 0
  Arrive [] [] = Unit
  Arrive (WsMessage.binary bytes ∷ messages) (round ∷ rounds) =
      (round.incoming ≡ Incoming.binary bytes)
      × ((world : World net json limits) → round.others world ≡ world)
      × Arrive messages rounds
  Arrive _ _ = ⊥

  module _ (handle : PeerHandle) (id : Text) (server : PeerHandle) (s : SessionState)
      (version : handle.meta.version ≡ v2) (kind : handle.meta.kind ≡ v2_client id)
      (present : get id s.server_data ≡ some server) where
    handle_frame-forward_frame :
        (ts : ℕ) (frame : RelayFrame) (n : Net)
        → handle_frame net json handle.meta ts frame s n ≡ (s, forward_frame net server frame n)
    unfolding handle_frame route_frame
    handle_frame-forward_frame ts frame n = simp (version, kind, present, route_frame)

    peer_loop-forward_frames :
        (messages : List WsMessage) (rounds : List (Round net json limits)) (w : Window) (n : Net)
        → Arrive messages rounds
        → All (λ m. message_bytes m ≤ limits.max_frame_bytes) messages
        → w.messages_in_window + length messages ≤ limits.max_messages_per_window
        → peer_loop net json limits handle w rounds (s, n)
          ≡ (waiting, (s, forward_frames net server (frames_of messages) n))
    unfolding peer_loop proceed forward_frames frames_of message_bytes
    peer_loop-forward_frames [] [] w n a small fits = refl
    peer_loop-forward_frames [] (round ∷ rounds) w n a small fits = elim a [ ]
    peer_loop-forward_frames (failed ∷ messages) rounds w n a small fits = elim a [ ]
    peer_loop-forward_frames (other ∷ messages) rounds w n a small fits = elim a [ ]
    peer_loop-forward_frames (WsMessage.binary bytes ∷ messages) [] w n a small fits = elim a [ ]
    peer_loop-forward_frames (WsMessage.binary bytes ∷ messages) (round ∷ rounds) w n
          (incoming, quiet, rest) (small, smalls) fits =
        let k = length messages in
        let (w1, step, fits1) = received limits round.now k bytes w small (omega (arith, fits)) in
        let taken : receive limits round.now round.incoming w
            ≡ (w1, Decision.frame (RelayFrame.binary bytes)) =
          ap (λ i. receive limits round.now i w) incoming ∙ step in
        let f = RelayFrame.binary bytes in
        rw (taken, quiet (s, n), handle_frame-forward_frame round.now_ms f n)
          (peer_loop-forward_frames messages rounds w1 (forward_frame net server f n) rest smalls
            fits1)

  module _ (requests : Serde OpenRequest) (messages : Serde ControlMessage) (aead : Aead) where
    write_loop-IsBinary :
        (crypto : Option (FrameCrypto aead)) (frames : List MuxFrame)
        → All IsBinary (write_loop requests messages aead crypto frames)
    write_loop-IsBinary crypto [] = unfold write_loop in tt
    write_loop-IsBinary crypto (f ∷ fs) = elim (Option-cases (encode_frame requests messages f)) [
      | inl e ↦ rw (skipped requests messages aead crypto f fs e).0 (write_loop-IsBinary crypto fs)
      | inr (bytes, e) ↦ elim (Option-cases ((wrap aead crypto bytes).0)) [
        | inl w ↦ rw (broken_off requests messages aead crypto f fs bytes e w).0 tt
        | inr (sent, w) ↦
            rw (written_on requests messages aead crypto f fs bytes sent e w).0
              (tt, write_loop-IsBinary (wrap aead crypto bytes).1 fs)
      ]
    ]

    -- What one end of a multiplexed connection writes, as a v2 client of the relay, is carried to the
    -- other end. The relay's loop over that client's socket takes the messages as they come in, one
    -- after another, at any times, while nothing else happens in the session; then it waits for
    -- more, the session is as before, and what the loop has put at the end of the queue of the
    -- connection's server data socket is, as the write task sends it, read by the other end as the
    -- frames that were written, and each of them is handed on in order; then the connection is
    -- closed. No message is larger than the relay's frame limit, they and those already counted in
    -- the window number at most the relay's rate limit, the server data socket's channel is open and
    -- has room for all of them, the two ends agree on the secret, and the stream ids are `u32`s.
    relay_carries :
        (handle : PeerHandle) (id : Text) (server : PeerHandle) (s : SessionState) (n : Net)
        (w : Window) (rounds : List (Round net json limits))
        (sender receiver : Option (FrameCrypto aead)) (frames : List MuxFrame) (r : Reader)
        → handle.meta.version ≡ v2
        → handle.meta.kind ≡ v2_client id
        → get id s.server_data ≡ some server
        → is_closed server.tx n ≡ false
        → let sent = write_loop requests messages aead sender frames in
          length (queued server.tx n) + length sent ≤ capacity server.tx n
          → All (λ m. message_bytes m ≤ limits.max_frame_bytes) sent
          → w.messages_in_window + length sent ≤ limits.max_messages_per_window
          → Arrive sent rounds
          → Agree requests messages aead sender receiver
          → All (λ f. frame_stream requests messages f < u32_mod) frames
          → let after = peer_loop net json limits handle w rounds (s, n) in
            (after.0 ≡ waiting)
            × (after.1.0 ≡ s)
            × (new : List OutboundMessage) × (queued server.tx after.1.1
                ≡ queued server.tx n ++ new)
            × (read_loop requests messages aead receiver (map to_message new) r
                ≡ record (dispatch_all (written requests messages aead sender frames) r) {
                  closed = true;
                })
    relay_carries handle id server s n w rounds sender receiver frames r version kind present opened
          fits small rate arrive a k =
        let sent = write_loop requests messages aead sender frames in
        let looped =
          peer_loop-forward_frames handle id server s version kind present sent rounds w n arrive
            small rate in
        let (same, count) = through_relay sent (write_loop-IsBinary sender frames) in
        (
          ap (λ p. p.0) looped,
          ap (λ p. p.1.0) looped,
          map to_outbound (frames_of sent),
          ap (λ p. queued server.tx p.1.1) looped
              ∙ forward_frames-queued net server (frames_of sent) n opened
                  (omega (arith, count, fits)),
          rw same (read_loop-write_loop requests messages aead sender receiver frames r a k),
        )
