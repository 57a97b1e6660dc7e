-- ===== src/Session/System.antt =====
-- A session of crates/relay/src/session.rs under a sequence of operations. The session's mutex
-- makes each operation one step; between them the receivers take messages from their channels and
-- new channels appear, so the network changes in any way.
use node_access.Prelude.{ℕ, ◌<◌, refl, List, [], ◌∷◌, arith}
use node_access.HashMap.{get}
use node_access.Runtime.{Channels, Json}
use node_access.Session.State.{
  OutboundMessage, Bytes, PeerMeta, PeerHandle, SessionState, empty_session, RelayLimitsConfig,
  RelayFrame,
}
use node_access.Session.Ops.{count_live_sockets, from_slot}
use node_access.Session.Handlers.{register, handle_frame, handle_ping, unregister}
use node_access.Session.WellFormed.{WellFormed}
use node_access.Session.WellFormed.Register.{register-WellFormed}
use node_access.Session.WellFormed.Frames.{handle_frame-WellFormed}
use node_access.Session.WellFormed.Unregister.{unregister-WellFormed}

module _ (net : Channels OutboundMessage) (json : Json) (limits : RelayLimitsConfig) where
  open net use {Net}

  pub data Event : Type 0 where
    registers : PeerHandle → Event
    sends : PeerMeta → ℕ → RelayFrame → Event
    pings : PeerMeta → Bytes → Event
    unregisters : PeerMeta → Event
    network : Net → Event

  unfoldable pub step : Event → SessionState × Net → SessionState × Net
  step (registers h) (s, n) = let r = register net json limits h s n in (r.1, r.2)
  step (sends meta ts frame) (s, n) = handle_frame net json meta ts frame s n
  step (pings meta payload) (s, n) = (s, handle_ping net meta payload s n)
  step (unregisters meta) (s, n) = unregister net json meta s n
  step (network n') (s, n) = (s, n')

  unfoldable pub run : List Event → SessionState × Net → SessionState × Net
  unfolding step
  run [] r = r
  run (e ∷ es) r = run es (step e r)

  pub empty-WellFormed : WellFormed limits empty_session
  unfolding count_live_sockets from_slot get
  empty-WellFormed = record {
    at_v1_server = tt;
    at_v1_client = tt;
    at_control = tt;
    at_data = tt;
    at_clients = tt;
    at_pending = tt;
    waiting = λ id frames q. refl;
    sockets = omega arith;
  }

  step-WellFormed :
      (e : Event) (s : SessionState) (n : Net)
      → 0 < limits.max_clients_per_connection
      → WellFormed limits s
      → WellFormed limits (step e (s, n)).0
  unfolding step
  step-WellFormed (registers h) s n room w = register-WellFormed net json limits h s n room w
  step-WellFormed (sends meta ts frame) s n room w =
      handle_frame-WellFormed net json limits meta ts frame s n w
  step-WellFormed (pings meta payload) s n room w = w
  step-WellFormed (unregisters meta) s n room w = unregister-WellFormed net json limits meta s n w
  step-WellFormed (network n') s n room w = w

  run_from-WellFormed :
      (es : List Event) (r : SessionState × Net)
      → 0 < limits.max_clients_per_connection
      → WellFormed limits r.0
      → WellFormed limits (run es r).0
  unfolding run
  run_from-WellFormed [] r room w = w
  run_from-WellFormed (e ∷ es) r room w =
      run_from-WellFormed es (step e r) room (step-WellFormed e r.0 r.1 room w)

  -- Where the limit on the clients of a connection is not zero, every sequence of operations takes
  -- the empty session to a well-formed one: each slot and map holds handles of its kind under their
  -- own ids, a connection has between one client and the limit, a buffer holds between one frame
  -- and 200 and belongs to a connection without a server data socket, and the sockets of the
  -- session number at most the limit.
  pub run-WellFormed :
      (es : List Event) (n : Net)
      → 0 < limits.max_clients_per_connection
      → WellFormed limits (run es (empty_session, n)).0
  run-WellFormed es n room = run_from-WellFormed es (empty_session, n) room empty-WellFormed
