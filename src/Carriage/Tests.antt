-- ===== src/Carriage/Tests.antt =====
-- Witness of the theorem on a multiplexed connection through the relay.
use node_access.Prelude.{
  ◌≡◌, refl, true, false, some, List, [], ◌∷◌, ◌++◌, map, Text, text_eq, str, arith,
}
use node_access.Protocol.{client, v2}
use node_access.HashMap.{get}
use node_access.Runtime.{Channels}
use node_access.Runtime.Samples.{Network, sample_channels, sample_json}
use node_access.Session.State.{
  OutboundMessage, PeerMeta, PeerHandle, v2_client, SessionState, empty_session, default_limits,
}
use node_access.Mux.Frame.{MuxFrame, data_frame, open_frame, socks, encode_frame}
use node_access.Mux.Crypto.{from_secret, wrap, seal}
use node_access.Mux.Reader.{Reader, dispatch_all}
use node_access.Mux.Loops.{WsMessage, write_loop, read_loop, written}
use node_access.Mux.Samples.{write_request, sample_requests, sample_messages, sample_aead}
use node_access.Server.Peer.{Incoming, failed, Window}
use node_access.Server.Socket.{waiting, Round, peer_loop}
use node_access.Carriage.{to_message, message_bytes, relay_carries}

abbrev net : Channels OutboundMessage
net = sample_channels OutboundMessage

-- Every channel is open, empty and of the default size.
abbrev quiet : Network OutboundMessage
quiet = λ c. record { queue = []; capacity = 256; is_closed = false }

abbrev id : Text
id = str "access-laptop"

abbrev meta : PeerMeta
meta = record {
  peer_id = 1;
  server_id = str "node";
  role = client;
  version = v2;
  connection_id = some id;
  kind = v2_client id;
}

abbrev server : PeerHandle
server = record { meta = meta; tx = 2 }

abbrev session : SessionState
session = record empty_session { server_data = (id, server) ∷ [] }

abbrev frames : List MuxFrame
frames = open_frame 1 socks ∷ data_frame 1 (str "hi") ∷ []

abbrev reader : Reader
reader = record {
  streams = [];
  channels = 0;
  sent = [];
  incoming = [];
  control = [];
  closed = false;
}

abbrev handle : PeerHandle
handle = record { meta = meta; tx = 1 }

abbrev opened : Window
opened = record { window_started_at = 0; messages_in_window = 5 }

abbrev sent : List WsMessage
sent =
    write_loop sample_requests sample_messages sample_aead
      (some (from_secret sample_aead (str "key") 0 1)) frames

-- A binary message comes in.
abbrev brings : WsMessage → Round net sample_json default_limits
brings (WsMessage.binary bytes) = record {
  now = 7;
  now_ms = 1_007;
  incoming = Incoming.binary bytes;
  others = λ world. world;
}
brings _ = record { now = 7; now_ms = 1_007; incoming = failed; others = λ world. world }

relay_carries_example :
    let receiver = some (from_secret sample_aead (str "key") 1 0) in
    let sender = some (from_secret sample_aead (str "key") 0 1) in
    let after =
      peer_loop net sample_json default_limits handle opened (map brings sent) (session, quiet) in
    (after.0 ≡ waiting)
    × (after.1.0 ≡ session)
    × (new : List OutboundMessage) × (net.queued 2 after.1.1 ≡ [] ++ new)
    × (read_loop sample_requests sample_messages sample_aead receiver (map to_message new) reader
        ≡ record (dispatch_all
            (written sample_requests sample_messages sample_aead sender frames)
            reader) { closed = true })
unfolding from_secret get write_loop wrap seal encode_frame text_eq write_request message_bytes
relay_carries_example =
    relay_carries net sample_json default_limits sample_requests sample_messages sample_aead handle
      id server session quiet opened (map brings sent)
      (some (from_secret sample_aead (str "key") 0 1))
      (some (from_secret sample_aead (str "key") 1 0)) frames reader refl refl refl refl
      (omega arith) (omega arith, (omega arith, tt)) (omega arith)
      ((refl, λ world. refl, (refl, λ world. refl, tt)))
      (record { same_key = refl; same_dir = refl; counter_fits = omega arith })
      (omega arith, (omega arith, tt))
