-- ===== src/Session/Effects.antt =====
-- The network effects of crates/relay/src/session.rs: which channels an operation may send on, and
-- what a send leaves in the queues.
use node_access.Prelude.{
  Option, none, some, ℕ, ◌≡◌, refl, ◌∙◌, Bool, not, ◌&&◌, List, [], ◌∷◌, ◌++◌, ltb, ◌==◌,
  if◌then◌else◌, length, Text, nat_eq, arith, append-nil, append_assoc, ap, ◌≢◌, eqb_iff, inl, inr,
  Bool-cases, str,
}
use node_access.Runtime.{Channels, SendResult, sent, full, closed}
use node_access.Session.State.{OutboundMessage, close, PeerHandle, RelayFrame, SessionState}
use node_access.Session.Ops.{
  after_send, close_handle, send_or_close, forward_frame, forward_frames, notify_control_locked,
  to_outbound,
}

module _ (net : Channels OutboundMessage) where
  open net use {
    Net, try_send, queued, capacity, is_closed, send_answer, send_queued, send_capacity,
    send_closed,
  }

  -- A channel takes a message if its receiver is there and its queue is not full.
  abbrev pub has_room : ℕ → Net → Bool
  has_room c n = not (is_closed c n) && ltb (length (queued c n)) (capacity c n)

  -- The second network comes from the first by sends on channels that satisfy `P` alone.
  pub data Sends (P : ℕ → Type 0) (n : Net) : Net → Type 0 where
    nothing : Sends P n n
    also :
        {n' : Net} (c : ℕ) (m : OutboundMessage)
        → P c
        → Sends P n n'
        → Sends P n (try_send c m n').0

  extend_step :
      (n : Net) (c d : ℕ) (m : OutboundMessage) (old ms : List OutboundMessage)
      → queued d n ≡ old ++ ms
      → (ks : List OutboundMessage) × (queued d (try_send c m n).0 ≡ old ++ ks)
  extend_step n c d m old ms e = elim (Bool-cases (c == d && has_room c n)) [
    | inl y ↦ (ms ++ m ∷ [], rw (send_queued c d m n, y, e) (append_assoc old ms (m ∷ [])))
    | inr y ↦ (ms, rw (send_queued c d m n, y, e))
  ]

  module _ {P : ℕ → Type 0} where
    pub Sends-trans : {a b c : Net} → Sends P a b → Sends P b c → Sends P a c
    Sends-trans f nothing = f
    Sends-trans f (also c m h g) = also c m h (Sends-trans f g)

    -- No other channel's queue changes.
    pub Sends-other :
        {a b : Net} (d : ℕ) → ((c : ℕ) → P c → c ≢ d) → Sends P a b → queued d b ≡ queued d a
    Sends-other d other nothing = refl
    Sends-other d other (also {n' = n} c m h f) =
        ground (arith, send_queued c d m n, eqb_iff c d, other c h, Sends-other d other f)

    -- What is queued stays queued, in its order, in front of what is added.
    pub Sends-extends :
        {a b : Net} (d : ℕ)
        → Sends P a b
        → (ms : List OutboundMessage) × (queued d b ≡ queued d a ++ ms)
    Sends-extends d nothing = ([], rw append-nil)
    Sends-extends {a} d (also {n' = n} c m h f) =
        let (ms, e) = Sends-extends d f in extend_step n c d m (queued d a) ms e

    pub Sends-close_handle :
        (h : PeerHandle) (code : ℕ) (reason : Text) (n : Net)
        → P h.tx
        → Sends P n (close_handle net h code reason n)
    unfolding close_handle
    Sends-close_handle h code reason n p = also h.tx (close code reason) p nothing

    Sends-after_send :
        (h : PeerHandle) (n : Net) (r : Net × SendResult)
        → P h.tx
        → Sends P n r.0
        → Sends P n (after_send net h r)
    unfolding after_send
    Sends-after_send h n (n', sent) p f = f
    Sends-after_send h n (n', full) p f = also h.tx _ p f
    Sends-after_send h n (n', closed) p f = f

    pub Sends-send_or_close :
        (h : PeerHandle) (m : OutboundMessage) (n : Net)
        → P h.tx
        → Sends P n (send_or_close net h m n)
    unfolding send_or_close
    Sends-send_or_close h m n p = Sends-after_send h n (try_send h.tx m n) p (also h.tx m p nothing)

    pub Sends-forward_frames :
        (h : PeerHandle) (frames : List RelayFrame) (n : Net)
        → P h.tx
        → Sends P n (forward_frames net h frames n)
    unfolding forward_frames forward_frame
    Sends-forward_frames h [] n p = nothing
    Sends-forward_frames h (f ∷ fs) n p =
        Sends-trans (Sends-send_or_close h (to_outbound f) n p)
          (Sends-forward_frames h fs (forward_frame net h f n) p)

  -- One attempt to send `m` on `c`, as the queues show it.
  abbrev pub Offered : ℕ → OutboundMessage → Net → Net → Type 0
  Offered c m n n' =
      (d : ℕ) → queued d n' ≡ (if c == d && has_room c n then queued d n ++ m ∷ [] else queued d n)

  pub try_send-Offered : (c : ℕ) (m : OutboundMessage) (n : Net) → Offered c m n (try_send c m n).0
  try_send-Offered c m n d = send_queued c d m n

  -- What `after_send` does when the first attempt answered `r`.
  after_send-queued :
      (h : PeerHandle) (m : OutboundMessage) (n : Net) (d : ℕ) (r : Net × SendResult)
      → r ≡ try_send h.tx m n
      → queued d (after_send net h r) ≡ queued d r.0
  unfolding after_send
  after_send-queued h m n d (n', sent) e = refl
  after_send-queued h m n d (n', closed) e = refl
  after_send-queued h m n d (n', full) e = ground (
    arith,
    send_queued h.tx d (close 1013 (str "Slow consumer")) n',
    ap (λ (r : Net × SendResult). queued h.tx r.0) e,
    ap (λ (r : Net × SendResult). is_closed h.tx r.0) e,
    ap (λ (r : Net × SendResult). capacity h.tx r.0) e,
    ap (λ (r : Net × SendResult). r.1) e,
    send_answer h.tx m n,
    send_queued h.tx h.tx m n,
    send_capacity h.tx h.tx m n,
    send_closed h.tx h.tx m n,
  )

  -- `send_or_close` leaves in the queues what one attempt leaves: its second attempt, the close of
  -- a slow consumer, meets the queue that was full for the first.
  pub send_or_close-Offered :
      (h : PeerHandle) (m : OutboundMessage) (n : Net) → Offered h.tx m n (send_or_close net h m n)
  unfolding send_or_close
  send_or_close-Offered h m n d =
      after_send-queued h m n d (try_send h.tx m n) refl ∙ send_queued h.tx d m n

  -- An attempt to send a message to the handle in a place, if there is one.
  abbrev pub Told : Option PeerHandle → OutboundMessage → Net → Net → Type 0
  Told none m n n' = n' ≡ n
  Told (some h) m n n' = Offered h.tx m n n'

  pub notify_control_locked-Told :
      (control : Option PeerHandle) (s : SessionState) (message : Text) (n : Net)
      → s.server_control ≡ control
      → Told control (OutboundMessage.text message) n (notify_control_locked net s message n)
  unfolding notify_control_locked
  notify_control_locked-Told none s message n e = rw (e)
  notify_control_locked-Told (some control) s message n e =
      rw (e) (send_or_close-Offered control (OutboundMessage.text message) n)
