-- ===== src/Session/Delivery.antt =====
-- What arrives in the queues, of crates/relay/src/session.rs: frames forwarded to several clients,
-- and frames that waited for their server data socket.
use node_access.Session.Effects.{
  try_send-Offered, Sends-close_handle, Offered, Sends, nothing, also, Sends-other,
  Sends-send_or_close, send_or_close-Offered, has_room,
}
use node_access.Session.State.{close, OutboundMessage, PeerHandle, RelayFrame}
use node_access.Session.Ops.{close_handle, to_outbound, forward_frame, forward_frames}
use node_access.Prelude.{
  ℕ, ◌+◌, ◌≡◌, ◌≢◌, ◌≤◌, refl, sym, ap, ◌∙◌, true, false, List, [], ◌∷◌, ◌++◌, Text, nat_eq,
  text_Eq, if◌then◌else◌, All, arith, length, map, append-nil, append_assoc, length-append,
}
use node_access.Runtime.{Channels}
use node_access.Session.Handlers.{each}
use node_access.Session.Routing.{Elem, here, there}

-- No channel stands twice in the list.
abbrev pub Distinct : List ℕ → Type 0
Distinct [] = Unit
Distinct (c ∷ cs) = All (λ d. d ≢ c) cs × Distinct cs

abbrev pub channels : List PeerHandle → List ℕ
channels = map (λ h. h.tx)

pub channel_ne :
    (c : ℕ) (hs : List PeerHandle) {h : PeerHandle}
    → All (λ d. d ≢ c) (channels hs)
    → Elem h hs
    → h.tx ≢ c
channel_ne c [] a e = elim e [ ]
channel_ne c (x ∷ hs) a here = a.0
channel_ne c (x ∷ hs) a (there e) = channel_ne c hs a.1 e

module _ (net : Channels OutboundMessage) where
  open net use {Net, queued, capacity, is_closed, send_capacity, send_closed}

  -- Sends on other channels do not change whether there is room on a channel.
  pub Sends-has_room :
      {P : ℕ → Type 0} {a b : Net} (d : ℕ)
      → ((c : ℕ) → P c → c ≢ d)
      → Sends net P a b
      → has_room net d b ≡ has_room net d a
  Sends-has_room d other nothing = refl
  Sends-has_room {P} {a} d other (also {n' = n} c m h f) =
      rw (Sends-other net d other (also c m h f), send_capacity c d m n, send_closed c d m n)
        (rw (Sends-other net d other f) at (Sends-has_room d other f))

  pub Sends-capacity :
      {P : ℕ → Type 0} {a b : Net} (d : ℕ) → Sends net P a b → capacity d b ≡ capacity d a
  Sends-capacity d nothing = refl
  Sends-capacity d (also {n' = n} c m h f) = send_capacity c d m n ∙ Sends-capacity d f

  pub Sends-is_closed :
      {P : ℕ → Type 0} {a b : Net} (d : ℕ) → Sends net P a b → is_closed d b ≡ is_closed d a
  Sends-is_closed d nothing = refl
  Sends-is_closed d (also {n' = n} c m h f) = send_closed c d m n ∙ Sends-is_closed d f

  pub forward_frame-queued :
      (h : PeerHandle) (frame : RelayFrame) (n : Net)
      → queued h.tx (forward_frame net h frame n)
        ≡ (if has_room net h.tx n then queued h.tx n ++ to_outbound frame ∷ [] else queued h.tx n)
  unfolding forward_frame
  forward_frame-queued h frame n =
      ground (arith, send_or_close-Offered net h (to_outbound frame) n h.tx)

  Sends-forward_frame :
      (h : PeerHandle) (frame : RelayFrame) (n : Net)
      → Sends net (λ c. c ≡ h.tx) n (forward_frame net h frame n)
  unfolding forward_frame
  Sends-forward_frame h frame n = Sends-send_or_close net h (to_outbound frame) n refl

  -- Every act of a loop over handles is an attempt to send one message on the handle's channel.
  pub record Offers (act : PeerHandle → Net → Net) (m : OutboundMessage) : Type 0 where
    pub own : (h : PeerHandle) (n : Net) → Sends net (λ c. c ≡ h.tx) n (act h n)
    pub offered : (h : PeerHandle) (n : Net) → Offered net h.tx m n (act h n)

  module _ (act : PeerHandle → Net → Net) (m : OutboundMessage) (o : Offers act m) where
    each-other :
        (hs : List PeerHandle) (n : Net) (d : ℕ)
        → All (λ c. c ≢ d) (channels hs)
        → queued d (each act hs n) ≡ queued d n
    unfolding each
    each-other [] n d a = refl
    each-other (h ∷ hs) n d a =
        each-other hs (act h n) d a.1 ∙ Sends-other net d (λ c p q. a.0 (sym p ∙ q)) (o.own h n)

    -- Over handles with channels of their own, the loop puts the message at the end of the queue of
    -- each handle whose channel has room, and leaves the queue of a handle without room.
    pub each-queued :
        (hs : List PeerHandle) (n : Net) (h : PeerHandle)
        → Distinct (channels hs)
        → Elem h hs
        → queued h.tx (each act hs n)
          ≡ (if has_room net h.tx n then queued h.tx n ++ m ∷ [] else queued h.tx n)
    unfolding each
    each-queued [] n h d e = elim e [ ]
    each-queued (h ∷ hs) n _ d here =
        each-other hs (act h n) h.tx d.0 ∙ ground (arith, o.offered h n h.tx)
    each-queued (k ∷ hs) n h d (there e) =
        let other : (c : ℕ) → c ≡ k.tx → c ≢ h.tx = λ c p q. channel_ne k.tx hs d.0 e (sym q ∙ p) in
        each-queued hs (act k n) h d.1 e
        ∙ rw (Sends-has_room h.tx other (o.own k n), Sends-other net h.tx other (o.own k n))

  pub forward_frame-Offers :
      (frame : RelayFrame) → Offers (λ h. forward_frame net h frame) (to_outbound frame)
  unfolding forward_frame
  forward_frame-Offers frame = record {
    own = λ h n. Sends-send_or_close net h (to_outbound frame) n refl;
    offered = λ h n. send_or_close-Offered net h (to_outbound frame) n;
  }

  pub close_handle-Offers :
      (code : ℕ) (reason : Text) → Offers (λ h. close_handle net h code reason) (close code reason)
  unfolding close_handle
  close_handle-Offers code reason = record {
    own = λ h n. Sends-close_handle net h code reason n refl;
    offered = λ h n. try_send-Offered net h.tx (close code reason) n;
  }

  -- Frames that fit into the queue of a channel all get there, in their order.
  pub forward_frames-queued :
      (h : PeerHandle) (frames : List RelayFrame) (n : Net)
      → is_closed h.tx n ≡ false
      → length (queued h.tx n) + length frames ≤ capacity h.tx n
      → queued h.tx (forward_frames net h frames n) ≡ queued h.tx n ++ map to_outbound frames
  unfolding forward_frames
  forward_frames-queued h [] n o fits = rw append-nil
  forward_frames-queued h (f ∷ fs) n o fits =
      let n' = forward_frame net h f n in
      let room : has_room net h.tx n ≡ true = ground (arith, o, fits) in
      let step : queued h.tx n' ≡ queued h.tx n ++ to_outbound f ∷ [] =
        forward_frame-queued h f n ∙ rw room in
      let sends = Sends-forward_frame h f n in
      forward_frames-queued h fs n' (Sends-is_closed h.tx sends ∙ o) (
        omega (
          arith,
          fits,
          Sends-capacity h.tx sends,
          ap length step,
          length-append (queued h.tx n) (to_outbound f ∷ []),
        ))
      ∙ rw step (append_assoc (queued h.tx n) (to_outbound f ∷ []) (map to_outbound fs))
