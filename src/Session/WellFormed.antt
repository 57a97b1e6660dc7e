-- ===== src/Session/WellFormed.antt =====
-- The well-formed sessions of crates/relay/src/session.rs.
pub mod Register
pub mod Frames
pub mod Unregister
use node_access.Prelude.{
  ℕ, ◌≡◌, ◌≤◌, ◌<◌, Option, none, some, List, [], ◌∷◌, length, Text, nat_eq, text_Eq,
}
use node_access.HashMap.{HashMap, get}
use node_access.HashMap.Entries.{Entries}
use node_access.Session.State.{
  PeerHandle, PeerId, PeerKind, v1_server, v1_client, v2_server_control, v2_server_data, v2_client,
  SessionState, RelayLimitsConfig, RelayFrame, pending_frame_limit,
}
use node_access.Session.Ops.{count_live_sockets}

-- A slot holds a handle of its kind, or nothing.
abbrev pub Slot : PeerKind → Option PeerHandle → Type 0
Slot kind none = Unit
Slot kind (some h) = h.meta.kind ≡ kind

-- The clients of a connection are kept by their peer ids.
abbrev pub IsClient : Text → PeerId → PeerHandle → Type 0
IsClient id peer_id h = (h.meta.kind ≡ v2_client id) × (h.meta.peer_id ≡ peer_id)

-- A connection has at least one client and at most the limit.
pub record IsConnection (limits : RelayLimitsConfig) (id : Text)
    (clients : HashMap PeerId PeerHandle) : Type 0 where
  pub typed : Entries (IsClient id) clients
  pub inhabited : 0 < length clients
  pub within : length clients ≤ limits.max_clients_per_connection

abbrev pub IsBuffer : Text → List RelayFrame → Type 0
IsBuffer id frames = (0 < length frames) × (length frames ≤ pending_frame_limit)

pub record WellFormed (limits : RelayLimitsConfig) (s : SessionState) : Type 0 where
  pub at_v1_server : Slot v1_server s.v1_server
  pub at_v1_client : Slot v1_client s.v1_client
  pub at_control : Slot v2_server_control s.server_control
  pub at_data : Entries (λ id h. h.meta.kind ≡ v2_server_data id) s.server_data
  pub at_clients : Entries (IsConnection limits) s.clients
  pub at_pending : Entries IsBuffer s.pending
  -- frames wait only for a server data socket that is not there
  pub waiting :
      (id : Text) (frames : List RelayFrame)
      → get id s.pending ≡ some frames
      → get id s.server_data ≡ none
  pub sockets : count_live_sockets s ≤ limits.max_sockets_per_session
