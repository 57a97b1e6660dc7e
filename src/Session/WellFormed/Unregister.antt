-- ===== src/Session/WellFormed/Unregister.antt =====
-- `unregister` keeps a session well formed.
use node_access.Prelude.{
  ◌≡◌, ◌≤◌, ◌<◌, false, Option, none, some, List, [], ◌∷◌, Text, nat_eq, text_Eq, arith,
  Option-cases, Bool-cases, inl, inr, ap, is_empty, length,
}
use node_access.HashMap.{HashMap, get, insert, remove}
use node_access.HashMap.Laws.{
  get-remove, sum_by-insert, sum_by-remove, length-remove, remove-insert, measure,
}
use node_access.HashMap.Entries.{Entries-insert, Entries-remove, Entries-get}
use node_access.Runtime.{Channels, Json}
use node_access.Session.State.{
  OutboundMessage, PeerMeta, PeerId, PeerHandle, PeerKind, v1_server, v1_client, v2_server_control,
  v2_server_data, v2_client, SessionState, RelayLimitsConfig,
}
use node_access.Session.Ops.{count_live_sockets, clear_if_same, from_slot}
use node_access.Session.Handlers.{
  unregister, unregister_kind, unregister_client, unregister_data, end_connection, holds_peer,
}
use node_access.Session.WellFormed.{Slot, WellFormed}

clear_if_same-Slot :
    (kind : PeerKind) (slot : Option PeerHandle) (peer_id : PeerId)
    → Slot kind slot
    → Slot kind (clear_if_same slot peer_id)
unfolding clear_if_same
clear_if_same-Slot kind none peer_id h = tt
clear_if_same-Slot kind (some x) peer_id h = ground arith

is_empty-pos {ℓ} : {A : Type ℓ} (xs : List A) → is_empty xs ≡ false → 0 < length xs
unfolding is_empty
is_empty-pos [] h = absurd (cc)
is_empty-pos (x ∷ xs) h = omega arith

from_slot-clear_if_same :
    (slot : Option PeerHandle) (peer_id : PeerId)
    → from_slot (clear_if_same slot peer_id) ≤ from_slot slot
unfolding clear_if_same from_slot
from_slot-clear_if_same slot peer_id = ground arith

module _ (net : Channels OutboundMessage) (json : Json) (limits : RelayLimitsConfig) where
  open net use {Net}

  -- One client leaves and others stay.
  left-WellFormed :
      (peer_id : PeerId) (id : Text) (c : HashMap PeerId PeerHandle) (s : SessionState)
      → get id s.clients ≡ some c
      → is_empty (remove peer_id c) ≡ false
      → WellFormed limits s
      → WellFormed limits (record s { clients = insert id (remove peer_id c) s.clients })
  unfolding count_live_sockets
  left-WellFormed peer_id id c s e stay w =
      let k = Entries-get _ id s.clients w.at_clients e in
      record {
        at_v1_server = w.at_v1_server;
        at_v1_client = w.at_v1_client;
        at_control = w.at_control;
        at_data = w.at_data;
        at_clients =
            Entries-insert _ id _ s.clients
              (record {
                typed = Entries-remove _ peer_id c k.typed;
                inhabited = is_empty-pos (remove peer_id c) stay;
                within = omega (arith, k.within, length-remove peer_id c);
              })
              w.at_clients;
        at_pending = w.at_pending;
        waiting = w.waiting;
        sockets = omega (
          arith,
          w.sockets,
          sum_by-insert length id (remove peer_id c) s.clients,
          ap (measure length) e,
          length-remove peer_id c,
        );
      }

  end_connection-WellFormed :
      (id : Text) (left : HashMap PeerId PeerHandle) (s : SessionState) (n : Net)
      → WellFormed limits s
      → WellFormed limits
          (end_connection net json id (record s { clients = insert id left s.clients }) n).0
  unfolding end_connection count_live_sockets
  end_connection-WellFormed id left s n w = rw (remove-insert id left s.clients) (record {
    at_v1_server = w.at_v1_server;
    at_v1_client = w.at_v1_client;
    at_control = w.at_control;
    at_data = Entries-remove _ id s.server_data w.at_data;
    at_clients = Entries-remove _ id s.clients w.at_clients;
    at_pending = Entries-remove _ id s.pending w.at_pending;
    waiting = λ j fs q.
        ground (arith, get-remove id j s.pending, get-remove id j s.server_data, w.waiting j fs, q);
    sockets =
        omega (arith, w.sockets, sum_by-remove length id s.clients, length-remove id s.server_data);
  })

  unregister_client-WellFormed :
      (peer_id : PeerId) (id : Text) (s : SessionState) (n : Net)
      → WellFormed limits s
      → WellFormed limits (unregister_client net json peer_id id s n).0
  unfolding unregister_client
  unregister_client-WellFormed peer_id id s n w = elim (Option-cases (get id s.clients)) [
    | inl e ↦ rw (e, unregister_client) w
    | inr (c, e) ↦
        rw (e, unregister_client)
          (elim (Bool-cases (is_empty (remove peer_id c))) [
            | inl gone ↦ rw gone (end_connection-WellFormed id (remove peer_id c) s n w)
            | inr stay ↦ rw stay (left-WellFormed peer_id id c s e stay w)
          ])
  ]

  unregister_data-WellFormed :
      (peer_id : PeerId) (id : Text) (s : SessionState) (n : Net)
      → WellFormed limits s
      → WellFormed limits (unregister_data net peer_id id s n).0
  unfolding unregister_data count_live_sockets
  unregister_data-WellFormed peer_id id s n w =
      elim (Bool-cases (holds_peer peer_id (get id s.server_data))) [
        | inl own ↦ rw own (record {
          at_v1_server = w.at_v1_server;
          at_v1_client = w.at_v1_client;
          at_control = w.at_control;
          at_data = Entries-remove _ id s.server_data w.at_data;
          at_clients = w.at_clients;
          at_pending = w.at_pending;
          waiting = λ j fs q. ground (arith, get-remove id j s.server_data, w.waiting j fs q);
          sockets = omega (arith, w.sockets, length-remove id s.server_data);
        })
        | inr other ↦ rw other w
      ]

  unregister_kind-WellFormed :
      (peer_id : PeerId) (kind : PeerKind) (s : SessionState) (n : Net)
      → WellFormed limits s
      → WellFormed limits (unregister_kind net json peer_id kind s n).0
  unfolding unregister_kind count_live_sockets
  unregister_kind-WellFormed peer_id (v2_client id) s n w =
      unregister_client-WellFormed peer_id id s n w
  unregister_kind-WellFormed peer_id (v2_server_data id) s n w =
      unregister_data-WellFormed peer_id id s n w
  unregister_kind-WellFormed peer_id v1_server s n w = record {
    at_v1_server = clear_if_same-Slot v1_server s.v1_server peer_id w.at_v1_server;
    at_v1_client = w.at_v1_client;
    at_control = w.at_control;
    at_data = w.at_data;
    at_clients = w.at_clients;
    at_pending = w.at_pending;
    waiting = w.waiting;
    sockets = omega (arith, w.sockets, from_slot-clear_if_same s.v1_server peer_id);
  }
  unregister_kind-WellFormed peer_id v1_client s n w = record {
    at_v1_server = w.at_v1_server;
    at_v1_client = clear_if_same-Slot v1_client s.v1_client peer_id w.at_v1_client;
    at_control = w.at_control;
    at_data = w.at_data;
    at_clients = w.at_clients;
    at_pending = w.at_pending;
    waiting = w.waiting;
    sockets = omega (arith, w.sockets, from_slot-clear_if_same s.v1_client peer_id);
  }
  unregister_kind-WellFormed peer_id v2_server_control s n w = record {
    at_v1_server = w.at_v1_server;
    at_v1_client = w.at_v1_client;
    at_control = clear_if_same-Slot v2_server_control s.server_control peer_id w.at_control;
    at_data = w.at_data;
    at_clients = w.at_clients;
    at_pending = w.at_pending;
    waiting = w.waiting;
    sockets = omega (arith, w.sockets, from_slot-clear_if_same s.server_control peer_id);
  }

  -- Unregistering a peer keeps the session well formed.
  pub unregister-WellFormed :
      (meta : PeerMeta) (s : SessionState) (n : Net)
      → WellFormed limits s
      → WellFormed limits (unregister net json meta s n).0
  unfolding unregister
  unregister-WellFormed meta s n w = unregister_kind-WellFormed meta.peer_id meta.kind s n w
