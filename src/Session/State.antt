-- ===== src/Session/State.antt =====
-- The data of crates/relay/src/session.rs. A `PeerHandle` holds the number of its channel for
-- `tx`; a `PeerId` is a number in place of a UUID.
use node_access.Prelude.{ℕ, ◌*◌, List, [], Option, none, Text, nat_eq, text_Eq}
use node_access.HashMap.{HashMap}
use node_access.Protocol.{ConnectionRole, RelayVersion}

abbrev pub pending_frame_limit : ℕ
pending_frame_limit = 200

-- Durations are in milliseconds.
pub record RelayTimingConfig : Type 0 where
  pub initial_nudge_delay : ℕ
  pub second_nudge_delay : ℕ

abbrev pub default_timings : RelayTimingConfig
default_timings = record { initial_nudge_delay = 10_000; second_nudge_delay = 5_000 }

pub record RelayLimitsConfig : Type 0 where
  pub max_frame_bytes : ℕ
  pub max_clients_per_connection : ℕ
  pub max_sockets_per_session : ℕ
  pub max_outbound_queue_messages : ℕ
  pub idle_timeout : ℕ
  pub max_messages_per_window : ℕ
  pub rate_limit_window : ℕ

abbrev pub default_limits : RelayLimitsConfig
default_limits = record {
  max_frame_bytes = 64 * 1024;
  max_clients_per_connection = 8;
  max_sockets_per_session = 64;
  max_outbound_queue_messages = 256;
  idle_timeout = 120_000;
  max_messages_per_window = 240;
  rate_limit_window = 10_000;
}

pub record SessionKey : Type 0 where
  pub server_id : Text
  pub version : RelayVersion

abbrev pub Bytes : Type 0
Bytes = List ℕ

pub data OutboundMessage : Type 0 where
  text : Text → OutboundMessage
  binary : Bytes → OutboundMessage
  pong : Bytes → OutboundMessage
  close : ℕ → Text → OutboundMessage

pub data RelayFrame : Type 0 where
  text : Text → RelayFrame
  binary : Bytes → RelayFrame

abbrev pub PeerId : Type 0
PeerId = ℕ

pub data PeerKind : Type 0 where
  v1_server v1_client v2_server_control : PeerKind
  v2_server_data v2_client : Text → PeerKind

pub record PeerMeta : Type 0 where
  pub peer_id : PeerId
  pub server_id : Text
  pub role : ConnectionRole
  pub version : RelayVersion
  pub connection_id : Option Text
  pub kind : PeerKind

pub record PeerHandle : Type 0 where
  pub meta : PeerMeta
  pub tx : ℕ

pub record SessionState : Type 0 where
  pub v1_server : Option PeerHandle
  pub v1_client : Option PeerHandle
  pub server_control : Option PeerHandle
  pub server_data : HashMap Text PeerHandle
  pub clients : HashMap Text (HashMap PeerId PeerHandle)
  pub pending : HashMap Text (List RelayFrame)

abbrev pub empty_session : SessionState
empty_session = record {
  v1_server = none;
  v1_client = none;
  server_control = none;
  server_data = [];
  clients = [];
  pending = [];
}
