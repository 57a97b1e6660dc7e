-- ===== src/Server/HandlerTests.antt =====
-- Witnesses of the theorems on how requests and sockets are handled.
use node_access.Prelude.{◌≡◌, ◌≢◌, ◌⊎◌, refl, true, false, Text, some, List, [], ◌∷◌, str, arith}
use node_access.HashMap.{get}
use node_access.Protocol.{client, v2, WsParams}
use node_access.Runtime.{Channels}
use node_access.Runtime.Samples.{Network, sample_channels, sample_json}
use node_access.Session.State.{
  OutboundMessage, SessionKey, PeerHandle, v2_client, default_timings, default_limits,
  empty_session,
}
use node_access.Session.Registry.{key_Eq}
use node_access.Server.Params.{RawWsParams, session_key}
use node_access.Server.Peer.{text, idle}
use node_access.Server.Socket.{Outcome, rejected, Round, run_peer}
use node_access.Server.Leaving.{HasLeft, run_peer_ends}
use node_access.Server.App.{AppState, ws_handler, handle_socket}
use node_access.Server.Handling.{Answered, ws_handler-Answered, Sound, handle_socket-Sound}

-- A query with blanks around the server id and a blank connection id.
abbrev raw : RawWsParams
raw = record {
  server_id = some (str " node ");
  role = some (str "client");
  v = some (str "2");
  connection_id = some (str "  ");
}

ws_handler-Answered_example : Answered true raw (ws_handler true raw)
ws_handler-Answered_example = ws_handler-Answered true raw

abbrev net : Channels OutboundMessage
net = sample_channels OutboundMessage

abbrev quiet : Network OutboundMessage
quiet = λ c. record { queue = []; capacity = 256; is_closed = false }

abbrev params : WsParams
params = record {
  server_id = str "node";
  role = client;
  version = v2;
  connection_id = some (str "laptop");
}

abbrev handle : PeerHandle
handle = record {
  meta = record {
    peer_id = 1;
    server_id = str "node";
    role = client;
    version = v2;
    connection_id = some (str "laptop");
    kind = v2_client (str "laptop");
  };
  tx = 1;
}

abbrev rounds : List (Round net sample_json default_limits)
rounds =
    record { now = 5; now_ms = 1_005; incoming = text (str "hello"); others = λ world. world }
    ∷ record { now = 9; now_ms = 1_009; incoming = idle; others = λ world. world }
    ∷ []

run_peer_ends_example :
    let r = run_peer net sample_json default_limits handle 0 rounds (empty_session, quiet) in
    HasLeft net sample_json default_limits handle.meta r
    ⊎ ((reason : Text) × (r.0 ≡ rejected reason))
run_peer_ends_example =
    run_peer_ends net sample_json default_limits handle 0 rounds (empty_session, quiet) refl

abbrev app : AppState
app = record {
  registry = record { timings = default_timings; limits = default_limits; sessions = [] };
  limits = default_limits;
  diagnostics = false;
}

handle_socket-Sound_example :
    (outcome : Outcome) × (after : AppState) × (n' : Network OutboundMessage) × (handle_socket net
        sample_json app params 1
        (str "77")
        1
        0
        rounds
        quiet
      ≡ some (outcome, (after, n')))
    × Sound after
    × (after.limits ≡ app.limits)
    × ((other : SessionKey)
        → session_key params ≢ other
        → get other after.registry.sessions ≡ get other app.registry.sessions)
handle_socket-Sound_example =
    handle_socket-Sound net sample_json app params 1 (str "77") 1 0 rounds quiet (omega arith)
      (λ world w. w, (λ world w. w, tt)) tt
