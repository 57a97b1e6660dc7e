-- ===== src/Server/Socket.antt =====
-- `run_peer` of crates/relay/src/server.rs: one socket from its registration to its end, with what
-- the other sockets of the session do in between.
use node_access.Prelude.{ℕ, ◌<◌, Option, none, some, List, [], ◌∷◌, Text, All}
use node_access.Runtime.{Channels, Json}
use node_access.Protocol.{ok, err}
use node_access.Session.State.{OutboundMessage, PeerHandle, RelayLimitsConfig, SessionState}
use node_access.Session.Handlers.{Registered, register, handle_frame, handle_ping, unregister}
use node_access.Session.Ops.{close_handle}
use node_access.Session.WellFormed.{WellFormed}
use node_access.Session.WellFormed.Register.{register-WellFormed}
use node_access.Session.WellFormed.Frames.{handle_frame-WellFormed}
use node_access.Session.WellFormed.Unregister.{unregister-WellFormed}
use node_access.Server.Peer.{Incoming, Window, Decision, frame, reply_ping, pass, stop, receive}

-- How the socket stands: refused, with the reason of the close 1008 that goes to it; waiting for
-- its next message; or gone.
pub data Outcome : Type 0 where
  rejected : Text → Outcome
  waiting gone : Outcome

module _ (net : Channels OutboundMessage) (json : Json) (limits : RelayLimitsConfig) where
  open net use {Net}

  abbrev pub World : Type 0
  World = SessionState × Net

  -- A round: the clocks, what comes in, and what others have done since the round before.
  pub record Round : Type 0 where
    pub now : ℕ
    pub now_ms : ℕ
    pub incoming : Incoming
    pub others : World → World

  send_close : PeerHandle → Option (ℕ × Text) → Net → Net
  send_close handle none n = n
  send_close handle (some (code, reason)) n = close_handle net handle code reason n

  -- The way out of the loop: the close, if there is one, and the unregistration.
  unfoldable pub leave : PeerHandle → Option (ℕ × Text) → World → Outcome × World
  unfolding send_close
  leave handle c (s, n) = (gone, unregister net json handle.meta s (send_close handle c n))

  -- What follows a decision; `go` is the rest of the loop.
  unfoldable pub proceed :
      PeerHandle → ℕ → Decision → (World → Outcome × World) → World → Outcome × World
  unfolding leave
  proceed handle ts (frame f) go (s, n) = go (handle_frame net json handle.meta ts f s n)
  proceed handle ts (reply_ping payload) go (s, n) = go (s, handle_ping net handle.meta payload s n)
  proceed handle ts pass go world = go world
  proceed handle ts (stop c) go world = leave handle c world

  unfoldable pub peer_loop : PeerHandle → Window → List Round → World → Outcome × World
  unfolding proceed
  peer_loop handle w [] world = (waiting, world)
  peer_loop handle w (round ∷ rounds) world =
      let r = receive limits round.now round.incoming w in
      let go = peer_loop handle r.0 rounds in
      proceed handle round.now_ms r.1 go (round.others world)

  unfoldable pub after_register :
      PeerHandle → ℕ → List Round → Registered × SessionState × Net → Outcome × World
  after_register handle now rounds (err reason, s, n) = (rejected reason, (s, n))
  after_register handle now rounds (ok nudge, s, n) =
      peer_loop handle (record { window_started_at = now; messages_in_window = 0 }) rounds (s, n)

  unfoldable pub run_peer : PeerHandle → ℕ → List Round → World → Outcome × World
  unfolding peer_loop after_register
  run_peer handle now rounds (s, n) =
      after_register handle now rounds (register net json limits handle s n)

  abbrev pub Keeps : (World → World) → Type 0
  Keeps f = (world : World) → WellFormed limits world.0 → WellFormed limits (f world).0

  proceed-WellFormed :
      (handle : PeerHandle) (ts : ℕ) (d : Decision) (go : World → Outcome × World) (world : World)
      → ((world : World) → WellFormed limits world.0 → WellFormed limits (go world).1.0)
      → WellFormed limits world.0
      → WellFormed limits (proceed handle ts d go world).1.0
  unfolding proceed
  proceed-WellFormed handle ts (frame f) go (s, n) k w =
      k _ (handle_frame-WellFormed net json limits handle.meta ts f s n w)
  proceed-WellFormed handle ts (reply_ping payload) go (s, n) k w = k _ w
  proceed-WellFormed handle ts pass go world k w = k world w
  proceed-WellFormed handle ts (stop c) go (s, n) k w =
      unregister-WellFormed net json limits handle.meta s _ w

  peer_loop-WellFormed :
      (handle : PeerHandle) (w : Window) (rounds : List Round) (world : World)
      → All (λ round. Keeps round.others) rounds
      → WellFormed limits world.0
      → WellFormed limits (peer_loop handle w rounds world).1.0
  unfolding peer_loop
  peer_loop-WellFormed handle w [] world k h = h
  peer_loop-WellFormed handle w (round ∷ rounds) world k h =
      proceed-WellFormed handle round.now_ms _ _ (round.others world)
        (λ world.
          peer_loop-WellFormed handle (receive limits round.now round.incoming w).0 rounds world
            k.1)
        (k.0 world h)

  -- The life of a socket, refused or accepted, keeps its session well formed, whatever comes in on
  -- it and whatever others do to the session meanwhile that keeps it so, where the limit on the
  -- clients of a connection is not zero.
  pub run_peer-WellFormed :
      (handle : PeerHandle) (now : ℕ) (rounds : List Round) (world : World)
      → 0 < limits.max_clients_per_connection
      → All (λ round. Keeps round.others) rounds
      → WellFormed limits world.0
      → WellFormed limits (run_peer handle now rounds world).1.0
  unfolding run_peer
  run_peer-WellFormed handle now rounds (s, n) room k w =
      after _ (register-WellFormed net json limits handle s n room w)
    where
      after :
          (r : Registered × SessionState × Net)
          → WellFormed limits r.1
          → WellFormed limits (after_register handle now rounds r).1.0
      after (err reason, s, n) h = h
      after (ok nudge, s, n) h = peer_loop-WellFormed handle _ rounds (s, n) k h
