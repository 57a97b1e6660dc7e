-- ===== src/Session/Waiting.antt =====
-- Frames of crates/relay/src/session.rs that wait for their server data socket, and what arrives
-- there when it registers.
use node_access.Prelude.{
  ℕ, ◌+◌, ◌-◌, ◌≡◌, ◌≤◌, ◌<◌, refl, ap, ◌∙◌, true, false, none, some, List, [], ◌∷◌, ◌++◌, Text,
  nat_eq, text_Eq, Option-cases, Bool-cases, inl, inr, arith, ltb, leb, length, map, drop,
  append-nil, append_assoc, length-append, eq_self,
}
use node_access.HashMap.{get, insert}
use node_access.HashMap.Laws.{get-insert, get-remove}
use node_access.Runtime.{Channels, Json}
use node_access.Protocol.{v2, ok}
use node_access.Session.State.{
  OutboundMessage, PeerMeta, PeerHandle, v2_server_data, v2_client, SessionState, RelayLimitsConfig,
  RelayFrame, pending_frame_limit,
}
use node_access.Session.Ops.{
  to_outbound, pop_excess, buffer_pending_locked, or_default, flush_pending_locked,
  count_live_sockets,
}
use node_access.Session.Handlers.{
  handle_frame, route_frame, register, register_kind, close_replaced,
}
use node_access.Session.Buffer.{pop_excess_lem, length-pop_excess-le}
use node_access.Session.Delivery.{forward_frames-queued}

-- Buffering one more frame is the same whether the excess was taken off before or not.
pop_excess-append :
    (fs : List RelayFrame) (f : RelayFrame)
    → pop_excess (pop_excess fs ++ f ∷ []) ≡ pop_excess (fs ++ f ∷ [])
unfolding pop_excess
pop_excess-append [] f = refl
pop_excess-append (x ∷ xs) f = elim (Bool-cases (ltb pending_frame_limit (length (x ∷ xs)))) [
  | inl over ↦
      let longer : ltb pending_frame_limit (length (x ∷ (xs ++ f ∷ []))) ≡ true =
        ground (arith, length-append xs (f ∷ [])) in
      rw (over, longer) (pop_excess-append xs f)
  | inr fits ↦ rw fits
]

-- The frames of one peer, handled one after the other.
module _ (net : Channels OutboundMessage) (json : Json) where
  open net use {Net, queued, capacity, is_closed}

  unfoldable pub handle_frames :
      PeerMeta → ℕ → List RelayFrame → SessionState → Net → SessionState × Net
  handle_frames meta ts [] s n = (s, n)
  handle_frames meta ts (frame ∷ frames) s n =
      let r = handle_frame net json meta ts frame s n in handle_frames meta ts frames r.0 r.1

  -- What buffering frames behind `old` ones has made of the session.
  record Buffered (id : Text) (old frames : List RelayFrame) (s : SessionState) (n : Net)
      (r : SessionState × Net) : Type 0 where
    held : or_default (get id (r.0).pending) ≡ pop_excess (old ++ frames)
    same_data : (r.0).server_data ≡ s.server_data
    same_count : count_live_sockets r.0 ≡ count_live_sockets s
    same_net : r.1 ≡ n

  module _ (meta : PeerMeta) (ts : ℕ) (id : Text) (version : meta.version ≡ v2)
      (kind : meta.kind ≡ v2_client id) where
    handle_frame-absent :
        (frame : RelayFrame) (s : SessionState) (n : Net)
        → get id s.server_data ≡ none
        → handle_frame net json meta ts frame s n ≡ (buffer_pending_locked s id frame, n)
    unfolding handle_frame route_frame
    handle_frame-absent frame s n absent = rw (version, kind, absent, route_frame)

    -- The queue of the buffer after one more frame.
    buffer-held :
        (frame : RelayFrame) (old : List RelayFrame) (s : SessionState)
        → or_default (get id s.pending) ≡ pop_excess old
        → or_default (get id (buffer_pending_locked s id frame).pending)
          ≡ pop_excess (old ++ frame ∷ [])
    unfolding buffer_pending_locked or_default
    buffer-held frame old s held =
        rw
          (
            get-insert id id (pop_excess (or_default (get id s.pending) ++ frame ∷ [])) s.pending,
            eq_self id,
            held,
          )
          (pop_excess-append old frame)

    handle_frames-Buffered :
        (frames old : List RelayFrame) (s : SessionState) (n : Net)
        → get id s.server_data ≡ none
        → or_default (get id s.pending) ≡ pop_excess old
        → Buffered id old frames s n (handle_frames meta ts frames s n)
    unfolding handle_frames buffer_pending_locked count_live_sockets
    handle_frames-Buffered [] old s n absent held = record {
      held = rw append-nil held;
      same_data = refl;
      same_count = refl;
      same_net = refl;
    }
    handle_frames-Buffered (f ∷ fs) old s n absent held =
        let s' = buffer_pending_locked s id f in
        let b = handle_frames-Buffered fs (old ++ f ∷ []) s' n absent (buffer-held f old s held) in
        rw (handle_frame-absent f s n absent) (record {
          held = b.held ∙ ap pop_excess (append_assoc old (f ∷ []) fs);
          same_data = b.same_data;
          same_count = b.same_count;
          same_net = b.same_net;
        })

  -- Flushing queues the waiting frames in their order, where they fit, and ends the wait.
  flush_pending_locked-queued :
      (s : SessionState) (id : Text) (h : PeerHandle) (n : Net)
      → is_closed h.tx n ≡ false
      → length (queued h.tx n) + length (or_default (get id s.pending)) ≤ capacity h.tx n
      → (queued h.tx (flush_pending_locked net s id h n).1
          ≡ queued h.tx n ++ map to_outbound (or_default (get id s.pending)))
        × (get id (flush_pending_locked net s id h n).0.pending ≡ none)
        × ((flush_pending_locked net s id h n).0.server_data ≡ s.server_data)
  unfolding flush_pending_locked or_default
  flush_pending_locked-queued s id h n o fits = elim (Option-cases (get id s.pending)) [
    | inl e ↦ rw (e, flush_pending_locked, or_default) (rw append-nil, e, refl)
    | inr (fs, e) ↦
        rw (e, flush_pending_locked, or_default)
          (
            forward_frames-queued net h fs n o (rw (e, or_default) at fits),
            rw (get-remove id id s.pending, eq_self id),
            refl,
          )
  ]

  -- Frames of a v2 client that come before there is a server data socket for its connection are
  -- kept, the last 200 of them, and when such a socket registers, under the socket limit and with
  -- an open channel that has room for 200 messages, exactly these frames are put into its channel,
  -- in their order; the connection has then no frame waiting and has the new socket.
  pub buffered_then_flushed :
      (limits : RelayLimitsConfig) (meta : PeerMeta) (ts : ℕ) (id : Text) (frames : List RelayFrame)
      (h : PeerHandle) (s : SessionState) (n : Net)
      → meta.version ≡ v2
      → meta.kind ≡ v2_client id
      → h.meta.kind ≡ v2_server_data id
      → get id s.server_data ≡ none
      → get id s.pending ≡ none
      → count_live_sockets s < limits.max_sockets_per_session
      → is_closed h.tx n ≡ false
      → length (queued h.tx n) + pending_frame_limit ≤ capacity h.tx n
      → let r = handle_frames meta ts frames s n in
        let q = register net json limits h r.0 r.1 in
        (q.0 ≡ ok none)
        × (queued h.tx q.2
            ≡ queued h.tx n ++ map to_outbound (drop (length frames - pending_frame_limit) frames))
        × (get id q.1.pending ≡ none)
        × (get id q.1.server_data ≡ some h)
  unfolding register register_kind
  buffered_then_flushed limits meta ts id frames h s n version kind served absent empty room o
        fits =
      let r = handle_frames meta ts frames s n in
      let b =
        handle_frames-Buffered meta ts id version kind frames [] s n absent
          (unfold or_default pop_excess in rw empty) in
      let s1 = record (r.0) { server_data = insert id h (r.0).server_data } in
      let free : leb limits.max_sockets_per_session (count_live_sockets r.0) ≡ false =
        ground (arith, b.same_count, room) in
      let none' : get id (r.0).server_data ≡ none = rw b.same_data absent in
      let f =
        flush_pending_locked-queued s1 id h n o
          (omega (arith, fits, ap length b.held, length-pop_excess-le frames)) in
      let taken = b.held ∙ pop_excess_lem frames in
      simp (free, served, none', register_kind, close_replaced, b.same_net)
        (
          refl,
          f.0 ∙ ap (λ (l : List RelayFrame). queued h.tx n ++ map to_outbound l) taken,
          f.1,
          ap (get id) f.2 ∙ get-insert id id h (r.0).server_data ∙ rw (eq_self id),
        )
