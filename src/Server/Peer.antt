-- ===== src/Server/Peer.antt =====
-- The loop of `run_peer` in crates/relay/src/server.rs: the guards on the messages of one socket.
use node_access.Prelude.{
  ℕ, ◌+◌, ◌-◌, ◌≤◌, ◌<◌, Option, none, some, List, [], ◌∷◌, Text, str, if◌then◌else◌, ltb, leb,
  utf8_len, length, arith, All,
}
use node_access.Session.State.{Bytes, RelayFrame, RelayLimitsConfig}

-- What `timeout(idle_timeout, receiver.next())` gives: the timeout, the end of the stream, a
-- message, or an error.
pub data Incoming : Type 0 where
  idle ended failed closed_by_peer : Incoming
  text : Text → Incoming
  binary ping pong : Bytes → Incoming

pub record Window : Type 0 where
  pub window_started_at : ℕ
  pub messages_in_window : ℕ

-- What the loop does with an input: hand a frame or a ping to the session, pass over it, or stop,
-- with the close that it sends first.
pub data Decision : Type 0 where
  frame : RelayFrame → Decision
  reply_ping : Bytes → Decision
  pass : Decision
  stop : Option (ℕ × Text) → Decision

-- The `match result`.
unfoldable pub classify : RelayLimitsConfig → Incoming → Decision
classify limits (text t) =
    if ltb limits.max_frame_bytes (utf8_len t)
    then stop (some (1009, str "Frame too large"))
    else frame (RelayFrame.text t)
classify limits (binary b) =
    if ltb limits.max_frame_bytes (length b)
    then stop (some (1009, str "Frame too large"))
    else frame (RelayFrame.binary b)
classify limits (ping b) = reply_ping b
classify limits (pong b) = pass
classify limits _ = stop none

-- The window at `now`, with the new message counted.
unfoldable pub count_message : RelayLimitsConfig → ℕ → Window → Window
count_message limits now w =
    if leb limits.rate_limit_window (now - w.window_started_at)
    then record { window_started_at = now; messages_in_window = 1 }
    else record w { messages_in_window = w.messages_in_window + 1 }

unfoldable pub admit : RelayLimitsConfig → Window → Incoming → Decision
unfolding classify
admit limits w incoming =
    if ltb limits.max_messages_per_window w.messages_in_window
    then stop (some (1008, str "Rate limit exceeded"))
    else classify limits incoming

-- One round of the loop.
unfoldable pub receive : RelayLimitsConfig → ℕ → Incoming → Window → Window × Decision
unfolding count_message admit
receive limits now idle w = (w, stop (some (1001, str "Idle timeout")))
receive limits now ended w = (w, stop none)
receive limits now incoming w =
    let w1 = count_message limits now w in (w1, admit limits w1 incoming)

-- The decisions on a row of inputs, up to the first one to stop.
unfoldable pub decisions : RelayLimitsConfig → Window → List (ℕ × Incoming) → List Decision
unfolding receive
decisions limits w [] = []
decisions limits w ((now, incoming) ∷ inputs) =
    let r = receive limits now incoming w in
    let rest = decisions limits r.0 inputs in elim (r.1) [ stop c ↦ [] | d ↦ d ∷ rest ]

-- The bytes of a frame.
unfoldable pub frame_bytes : RelayFrame → ℕ
frame_bytes (RelayFrame.text t) = utf8_len t
frame_bytes (RelayFrame.binary b) = length b

abbrev pub Fits : RelayLimitsConfig → Decision → Type 0
Fits limits (frame f) = frame_bytes f ≤ limits.max_frame_bytes
Fits limits (stop c) = ⊥
Fits limits _ = Unit

-- Every frame that the loop hands to the session is within the frame limit, and nothing is handed
-- over from the input that stops it on.
pub decisions_fit :
    (limits : RelayLimitsConfig) (w : Window) (inputs : List (ℕ × Incoming))
    → All (Fits limits) (decisions limits w inputs)
unfolding decisions frame_bytes
decisions_fit limits w [] = tt
decisions_fit limits w ((now, idle) ∷ inputs) = tt
decisions_fit limits w ((now, ended) ∷ inputs) = tt
decisions_fit limits w ((now, incoming) ∷ inputs) =
    let w1 = count_message limits now w in ground (arith, decisions_fit limits w1 inputs)

-- The inputs come within the window that began at the given time.
abbrev pub Within : RelayLimitsConfig → ℕ → List (ℕ × Incoming) → Type 0
Within limits start inputs =
    All (λ input. (start ≤ input.0) × (input.0 < start + limits.rate_limit_window)) inputs

-- Of the messages that come within one window, the loop handles no more than the limit, those that
-- the window has counted before included.
pub decisions_rate :
    (limits : RelayLimitsConfig) (w : Window) (inputs : List (ℕ × Incoming))
    → w.messages_in_window ≤ limits.max_messages_per_window
    → Within limits w.window_started_at inputs
    → w.messages_in_window + length (decisions limits w inputs) ≤ limits.max_messages_per_window
unfolding decisions
decisions_rate limits w [] h i = omega arith
decisions_rate limits w ((now, idle) ∷ inputs) h i = omega arith
decisions_rate limits w ((now, ended) ∷ inputs) h i = omega arith
decisions_rate limits w ((now, incoming) ∷ inputs) h i = ground (
  arith,
  decisions_rate limits (record w { messages_in_window = w.messages_in_window + 1 }) inputs,
  i.0,
)
