-- ===== src/Session/Ops.antt =====
-- The helpers at the end of crates/relay/src/session.rs. A network operation takes the network and
-- returns the new one.
use node_access.Prelude.{
  ℕ, ◌+◌, Bool, true, false, Option, none, some, List, [], ◌∷◌, ◌++◌, ltb, eqb, ◌==◌, if◌then◌else◌,
  length, Text, str, nat_eq, text_Eq, is_empty, map, ◌&&◌, ◌||◌,
}
use node_access.HashMap.{HashMap, get, insert, remove, sum_by, keys}
use node_access.Runtime.{Channels, Json, SendResult, sent, full, closed}
use node_access.Session.State.{
  OutboundMessage, close, RelayFrame, PeerHandle, PeerId, SessionState, pending_frame_limit,
}

unfoldable pub to_outbound : RelayFrame → OutboundMessage
to_outbound (RelayFrame.text t) = OutboundMessage.text t
to_outbound (RelayFrame.binary b) = OutboundMessage.binary b

module _ (net : Channels OutboundMessage) where
  open net use {Net, try_send}

  unfoldable pub close_handle : PeerHandle → ℕ → Text → Net → Net
  close_handle handle code reason n = (try_send handle.tx (close code reason) n).0

  unfoldable pub after_send : PeerHandle → Net × SendResult → Net
  after_send handle (n, sent) = n
  after_send handle (n, full) = (try_send handle.tx (close 1013 (str "Slow consumer")) n).0
  after_send handle (n, closed) = n

  unfoldable pub send_or_close : PeerHandle → OutboundMessage → Net → Net
  unfolding after_send
  send_or_close handle message n = after_send handle (try_send handle.tx message n)

  unfoldable pub forward_frame : PeerHandle → RelayFrame → Net → Net
  forward_frame target frame n = send_or_close target (to_outbound frame) n

  unfoldable pub notify_control_locked : SessionState → Text → Net → Net
  notify_control_locked s message n = elim s.server_control [
    | none ↦ n
    | some control ↦ send_or_close control (OutboundMessage.text message) n
  ]

  -- The `while let Some(frame) = pending.pop_front()` loop.
  unfoldable pub forward_frames : PeerHandle → List RelayFrame → Net → Net
  forward_frames handle [] n = n
  forward_frames handle (frame ∷ frames) n =
      forward_frames handle frames (forward_frame handle frame n)

  unfoldable pub flush_pending_locked : SessionState → Text → PeerHandle → Net → SessionState × Net
  flush_pending_locked s connection_id handle n = elim (get connection_id s.pending) [
    | none ↦ (s, n)
    | some pending ↦
        (record s { pending = remove connection_id s.pending }, forward_frames handle pending n)
  ]

-- The `while pending.len() > PENDING_FRAME_LIMIT` loop: each round takes one frame off the front.
unfoldable pub pop_excess : List RelayFrame → List RelayFrame
pop_excess [] = []
pop_excess (frame ∷ frames) =
    let rest = pop_excess frames in
    if ltb pending_frame_limit (length (frame ∷ frames)) then rest else frame ∷ frames

unfoldable pub or_default {ℓ} : {A : Type ℓ} → Option (List A) → List A
or_default none = []
or_default (some xs) = xs

unfoldable pub buffer_pending_locked : SessionState → Text → RelayFrame → SessionState
unfolding or_default
buffer_pending_locked s connection_id frame = record s {
  pending =
      insert connection_id (pop_excess (or_default (get connection_id s.pending) ++ frame ∷ []))
        s.pending;
}

-- The ids whose map of clients is not empty.
unfoldable pub live_ids : HashMap Text (HashMap PeerId PeerHandle) → List Text
live_ids [] = []
live_ids ((id, clients) ∷ m) = if is_empty clients then live_ids m else id ∷ live_ids m

-- Through a `HashSet`: each id once.
unfoldable pub unique : List Text → HashMap Text (Unit {0})
unique [] = []
unique (id ∷ ids) = insert id tt (unique ids)

-- `Ord for str`: by the bytes, which in UTF-8 is by the code points.
unfoldable pub text_le : Text → Text → Bool
text_le [] t = true
text_le (x ∷ s) [] = false
text_le (x ∷ s) (y ∷ t) = ltb x y || (eqb x y && text_le s t)

unfoldable pub insert_sorted : Text → List Text → List Text
insert_sorted t [] = t ∷ []
insert_sorted t (u ∷ us) = if text_le t u then t ∷ u ∷ us else u ∷ insert_sorted t us

unfoldable pub sort : List Text → List Text
unfolding insert_sorted
sort [] = []
sort (t ∷ ts) = insert_sorted t (sort ts)

unfoldable pub collect_client_connection_ids : SessionState → List Text
collect_client_connection_ids s = sort (keys (unique (live_ids s.clients)))

-- `usize::from(slot.is_some())`
unfoldable pub from_slot {ℓ} : {A : Type ℓ} → Option A → ℕ
from_slot none = 0
from_slot (some a) = 1

unfoldable pub count_live_sockets : SessionState → ℕ
unfolding from_slot
count_live_sockets s =
    (from_slot s.v1_server + from_slot s.v1_client)
    + from_slot s.server_control
    + length s.server_data
    + sum_by length s.clients

unfoldable pub clear_if_same : Option PeerHandle → PeerId → Option PeerHandle
clear_if_same none peer_id = none
clear_if_same (some handle) peer_id = if handle.meta.peer_id == peer_id then none else some handle

module _ (json : Json) where
  open json use {Value, to_string, object, string, array, number, from_str, field, as_str}

  unfoldable pub type_is_ping : Option Value → Bool
  type_is_ping none = false
  type_is_ping (some value) = elim (field (str "type") value) [
    | none ↦ false
    | some v ↦ elim (as_str v) [ none ↦ false | some s ↦ s == str "ping" ]
  ]

  unfoldable pub text_is_ping : Text → Bool
  unfolding type_is_ping
  text_is_ping t = type_is_ping (from_str t)

  -- The texts that the relay sends on a control channel, each a `json!` literal of the source.
  unfoldable pub sync_text : List Text → Text
  sync_text connection_ids = to_string (
      object (
        (str "type", string (str "sync"))
        ∷ (str "connectionIds", array (map string connection_ids))
        ∷ []))

  unfoldable pub connected_text : Text → Text
  connected_text connection_id = to_string (
      object
        ((str "type", string (str "connected")) ∷ (str "connectionId", string connection_id) ∷ []))

  unfoldable pub disconnected_text : Text → Text
  disconnected_text connection_id = to_string (
      object (
        (str "type", string (str "disconnected"))
        ∷ (str "connectionId", string connection_id)
        ∷ []))

  unfoldable pub pong_text : ℕ → Text
  pong_text ts = to_string (object ((str "type", string (str "pong")) ∷ (str "ts", number ts) ∷ []))
