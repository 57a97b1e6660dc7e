-- ===== src/Session/Orders.antt =====
-- The order in which crates/relay/src/session.rs goes through the handles of a connection's
-- clients, which is that of a `HashMap`, makes no difference to any channel.
use node_access.Prelude.{subst}
use node_access.Prelude.{
  ℕ, ◌≡◌, refl, sym, ◌∙◌, ◌&&◌, List, [], ◌∷◌, nat_eq, eqb_iff, arith, length, ltb, not,
}
use mathlib.Core.List.{Permᴰ}
use node_access.Runtime.{Channels}
use node_access.Session.State.{OutboundMessage, PeerHandle, RelayFrame}
use node_access.Session.Handlers.{each, forward_all, close_all}
use node_access.Session.Effects.{has_room}
use node_access.Session.Delivery.{
  Offers, forward_frame-Offers, close_handle-Offers, Sends-capacity, Sends-is_closed,
}

module _ (net : Channels OutboundMessage) where
  open net use {Net, queued, capacity, is_closed}

  -- No channel tells the two networks apart.
  pub record Alike (n n' : Net) : Type 0 where
    pub queues : (d : ℕ) → queued d n ≡ queued d n'
    pub capacities : (d : ℕ) → capacity d n ≡ capacity d n'
    pub closings : (d : ℕ) → is_closed d n ≡ is_closed d n'

  Alike-self : (n : Net) → Alike n n
  Alike-self n = record { queues = λ d. refl; capacities = λ d. refl; closings = λ d. refl }

  has_room-Alike : (c : ℕ) {n n' : Net} → Alike n n' → has_room net c n ≡ has_room net c n'
  has_room-Alike c a = rw (a.closings c, a.queues c, a.capacities c)

  module _ (act : PeerHandle → Net → Net) (m : OutboundMessage) (o : Offers net act m) where
    act-Alike : (h : PeerHandle) {n n' : Net} → Alike n n' → Alike (act h n) (act h n')
    act-Alike h {n} {n'} a = record {
      queues =
          λ d. o.offered h n d ∙ rw (has_room-Alike h.tx a, a.queues d) (sym (o.offered h n' d));
      capacities = λ d.
          Sends-capacity net d (o.own h n)
          ∙ a.capacities d
          ∙ sym (Sends-capacity net d (o.own h n'));
      closings = λ d.
          Sends-is_closed net d (o.own h n)
          ∙ a.closings d
          ∙ sym (Sends-is_closed net d (o.own h n'));
    }

    room_after :
        (h : PeerHandle) (n : Net) (c : ℕ)
        → has_room net c (act h n)
          ≡ (not (is_closed c n) && ltb (length (queued c (act h n))) (capacity c n))
    room_after h n c = rw (Sends-capacity net c (o.own h n), Sends-is_closed net c (o.own h n))

    swap-queues :
        (h k : PeerHandle) (n : Net) (d : ℕ)
        → queued d (act k (act h n)) ≡ queued d (act h (act k n))
    swap-queues h k n d = ground (
      arith,
      o.offered k (act h n) d,
      o.offered h n d,
      o.offered h n k.tx,
      o.offered h (act k n) d,
      o.offered k n d,
      o.offered k n h.tx,
      room_after h n k.tx,
      room_after k n h.tx,
      eqb_iff h.tx d,
      eqb_iff k.tx d,
      eqb_iff h.tx k.tx,
      eqb_iff k.tx h.tx,
    )

    swap-Alike : (h k : PeerHandle) (n : Net) → Alike (act k (act h n)) (act h (act k n))
    swap-Alike h k n = record {
      queues = λ d. swap-queues h k n d;
      capacities = λ d.
          Sends-capacity net d (o.own k (act h n))
          ∙ Sends-capacity net d (o.own h n)
          ∙ sym (Sends-capacity net d (o.own h (act k n)) ∙ Sends-capacity net d (o.own k n));
      closings = λ d.
          Sends-is_closed net d (o.own k (act h n))
          ∙ Sends-is_closed net d (o.own h n)
          ∙ sym (Sends-is_closed net d (o.own h (act k n)) ∙ Sends-is_closed net d (o.own k n));
    }

    Alike-trans : {a b c : Net} → Alike a b → Alike b c → Alike a c
    Alike-trans p q = record {
      queues = λ d. p.queues d ∙ q.queues d;
      capacities = λ d. p.capacities d ∙ q.capacities d;
      closings = λ d. p.closings d ∙ q.closings d;
    }

    each-Alike :
        (hs : List PeerHandle) {n n' : Net} → Alike n n' → Alike (each act hs n) (each act hs n')
    unfolding each
    each-Alike [] a = a
    each-Alike (h ∷ hs) a = each-Alike hs (act-Alike h a)

    each-order :
        {hs ks : List PeerHandle} {n n' : Net}
        → Permᴰ hs ks
        → Alike n n'
        → Alike (each act hs n) (each act ks n')
    unfolding each
    each-order Permᴰ.nil a = a
    each-order {n = n} {n' = n'} (Permᴰ.cons {a = h} {b = k} {l₁ = hs} {l₂ = ks} e p) a =
        subst (λ (k : PeerHandle). Alike (each act hs (act h n)) (each act ks (act k n'))) e
          (each-order p (act-Alike h a))
    each-order {n = n} {n' = n'} (Permᴰ.swap {a = h} {b = k} {a' = a'} {b' = b'} {l = hs} e f) a =
        let swapped =
          each-Alike hs (Alike-trans (swap-Alike h k n) (act-Alike h (act-Alike k a))) in
        let last : PeerHandle → PeerHandle → Type 0 =
          λ x y. Alike (each act hs (act k (act h n))) (each act hs (act y (act x n'))) in
        subst (λ (y : PeerHandle). last a' y) e (subst (λ (x : PeerHandle). last x h) f swapped)
    each-order {n = n} (Permᴰ.trans p q) a =
        Alike-trans (each-order p (Alike-self n)) (each-order q a)

  -- The order of the clients makes no difference, neither to a frame that is forwarded to all of
  -- them nor to the close that all of them are sent: in any two orders of the same handles, every
  -- channel gets the same messages behind what was queued, also where it has no room for some.
  pub orders_agree :
      (frame : RelayFrame) (hs ks : List PeerHandle) (n : Net) (d : ℕ)
      → Permᴰ hs ks
      → (queued d (forward_all net hs frame n) ≡ queued d (forward_all net ks frame n))
        × (queued d (close_all net hs n) ≡ queued d (close_all net ks n))
  unfolding forward_all close_all
  orders_agree frame hs ks n d p = (
    (each-order _ _ (forward_frame-Offers net frame) p (Alike-self n)).queues d,
    (each-order _ _ (close_handle-Offers net 1012 _) p (Alike-self n)).queues d,
  )
