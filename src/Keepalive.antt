-- ===== src/Keepalive.antt =====
-- The pings of a serving node, `run_control` of crates/node-access-3role/src/bin/node-relay.rs and
-- of crates/node-access-2role/src/bin/node-access.rs, through `handle_frame` of
-- crates/relay/src/session.rs and back.
mod Tests
use node_access.Prelude.{length-map}
use node_access.Prelude.{arith}
use node_access.Prelude.{All}
use node_access.Prelude.{suc}
use node_access.Runtime.{last_entry}
use node_access.Prelude.{
  ℕ, ◌+◌, ◌≤◌, ◌≡◌, refl, ap, ◌∙◌, Bool, true, false, Option, none, some, List, [], ◌∷◌, ◌++◌, map,
  length, Text, str, text_eq, text_Eq, nat_eq, ◌==◌, if◌then◌else◌, eq_self,
}
use node_access.Runtime.{Channels, Json}
use node_access.Protocol.{v2}
use node_access.Session.State.{
  OutboundMessage, PeerMeta, PeerHandle, v2_server_control, SessionState, RelayFrame,
}
use node_access.Session.Ops.{
  text_is_ping, type_is_ping, pong_text, to_outbound, forward_frame, forward_frames,
}
use node_access.Session.Handlers.{handle_frame, route_frame, answer_ping}
use node_access.Session.Delivery.{forward_frames-queued}
use node_access.Node.Events.{RelayControlEvent, read_event, read_event-relay}
use node_access.Node.Control.{ControlInput, ControlRun, text, control_loop, run_control}
use node_access.Node.Relay.{RelayState, control_event}

abbrev pub ping_text : Text
ping_text = str "{\"type\":\"ping\"}"

-- The ping task: by each tick, whether its send succeeds; what it sends, and whether it has ended.
unfoldable pub ping_task : List Bool → List Text × Bool
ping_task [] = ([], false)
ping_task (sent ∷ ticks) =
    let rest = ping_task ticks in if sent then (ping_text ∷ rest.0, rest.1) else ([], true)

ping_task-pings : (ticks : List Bool) → All (λ t. t ≡ ping_text) (ping_task ticks).0
unfolding ping_task
ping_task-pings [] = tt
ping_task-pings (true ∷ ticks) = (refl, ping_task-pings ticks)
ping_task-pings (false ∷ ticks) = tt

module _ (json : Json) where
  -- The answers to texts of which the first comes at `now k`, the second at `now (k + 1)`, and so
  -- on.
  abbrev pub pongs : List Text → (ℕ → ℕ) → ℕ → List Text
  pongs [] now k = []
  pongs (t ∷ ts) now k = pong_text json (now k) ∷ pongs ts now (k + 1)

  length-pongs : (ts : List Text) (now : ℕ → ℕ) (k : ℕ) → length (pongs ts now k) ≡ length ts
  length-pongs [] now k = refl
  length-pongs (t ∷ ts) now k = ap suc (length-pongs ts now (k + 1))

  outbound_texts :
      (ts : List Text) → map to_outbound (map RelayFrame.text ts) ≡ map OutboundMessage.text ts
  unfolding to_outbound
  outbound_texts [] = refl
  outbound_texts (t ∷ ts) = ap (◌∷◌ (OutboundMessage.text t)) (outbound_texts ts)

  -- The node reads the answers, and does nothing for them.
  reads_pongs :
      (ts : List Text) (now : ℕ → ℕ) (k : ℕ) (inputs : List ControlInput) (relay : RelayState)
      → run_control json (map text (pongs ts now k) ++ inputs) relay ≡ run_control json inputs relay
  unfolding run_control control_loop control_event
  reads_pongs [] now k inputs relay = refl
  reads_pongs (t ∷ ts) now k inputs relay =
      rw ((read_event-relay json [] [] (now k)).3, control_loop)
        (reads_pongs ts now (k + 1) inputs relay)

  is_ping :
      json.from_str ping_text ≡ some (json.object ((str "type", json.string (str "ping")) ∷ []))
      → text_is_ping json ping_text ≡ true
  unfolding text_is_ping type_is_ping last_entry text_eq
  is_ping reads =
      rw
        (
          reads,
          type_is_ping,
          json.field-object (str "type") ((str "type", json.string (str "ping")) ∷ []),
          json.as_str-string (str "ping"),
        )
        refl

  module _ (net : Channels OutboundMessage) (meta : PeerMeta) where
    open net use {Net, queued, capacity, is_closed}

    -- The relay takes the texts of the socket, the first at `now k`.
    unfoldable pub hears : List Text → (ℕ → ℕ) → ℕ → SessionState → Net → SessionState × Net
    unfolding handle_frame
    hears [] now k s n = (s, n)
    hears (t ∷ ts) now k s n =
        let r = handle_frame net json meta (now k) (RelayFrame.text t) s n in
        hears ts now (k + 1) r.0 r.1

    module _ (s : SessionState) (control : PeerHandle)
        (reads : json.from_str ping_text
          ≡ some (json.object ((str "type", json.string (str "ping")) ∷ [])))
        (version : meta.version ≡ v2) (kind : meta.kind ≡ v2_server_control)
        (held : s.server_control ≡ some control) (same : control.meta.peer_id ≡ meta.peer_id) where
      one_answer :
          (ts : ℕ) (n : Net)
          → handle_frame net json meta ts (RelayFrame.text ping_text) s n
            ≡ (s, forward_frame net control (RelayFrame.text (pong_text json ts)) n)
      unfolding handle_frame route_frame answer_ping forward_frame to_outbound
      one_answer ts n =
          rw (version, kind, is_ping reads, held, same, eq_self meta.peer_id, answer_ping) refl

      answers :
          (ts : List Text) (now : ℕ → ℕ) (k : ℕ) (n : Net)
          → All (λ t. t ≡ ping_text) ts
          → hears ts now k s n
            ≡ (s, forward_frames net control (map RelayFrame.text (pongs ts now k)) n)
      unfolding hears forward_frames
      answers [] now k n h = refl
      answers (t ∷ ts) now k n (e, h) = rw (e, one_answer (now k) n) (answers ts now (k + 1) _ h)

      -- The pings that a serving node's task sends on its control socket, while the relay has that
      -- socket as the session's control and its channel has room, are each answered, in order, with
      -- a pong of the time of the ping, the session stays as it is, and the node's loop takes the
      -- answers without doing anything; where serde_json reads the text of a ping as the object
      -- that it says.
      pub pings_answered :
          (ticks : List Bool) (now : ℕ → ℕ) (n : Net)
          → is_closed control.tx n ≡ false
          → length (queued control.tx n) + length (ping_task ticks).0 ≤ capacity control.tx n
          → let sent = (ping_task ticks).0 in
            let r = hears sent now 0 s n in
            (r.0 ≡ s)
            × (queued control.tx r.1
                ≡ queued control.tx n ++ map OutboundMessage.text (pongs sent now 0))
            × ((inputs : List ControlInput) (relay : RelayState)
                → run_control json (map text (pongs sent now 0) ++ inputs) relay
                  ≡ run_control json inputs relay)
      pings_answered ticks now n open_channel room =
          let sent = (ping_task ticks).0 in
          let e = answers sent now 0 n (ping_task-pings ticks) in
          (
            ap (λ (r : SessionState × Net). r.0) e,
            ap (λ (r : SessionState × Net). queued control.tx r.1) e
                ∙ forward_frames-queued net control (map RelayFrame.text (pongs sent now 0)) n
                    open_channel
                    (omega (
                      arith,
                      room,
                      length-map (pongs sent now 0) (λ (t : Text). RelayFrame.text t),
                      length-pongs sent now 0,
                    ))
                ∙ ap (λ (ms : List OutboundMessage). queued control.tx n ++ ms)
                    (outbound_texts (pongs sent now 0)),
            λ inputs relay. reads_pongs sent now 0 inputs relay,
          )
