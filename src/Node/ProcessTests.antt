-- ===== src/Node/ProcessTests.antt =====
-- Witnesses of the theorems on the nodes' processes, and tests of what they print.
use node_access.Node.Process.{prints, rule}
use node_access.Node.CommandLine.{build_ws_url, ws_base, trim_slashes, strip_prefix, ends_with}
use node_access.Node.Process.TwoRole.{visitor_line}
use node_access.Node.Process.TwoRole.{print_listing}
use node_access.Node.Process.TwoRole.{Args}
use node_access.Node.Process.TwoRole.{main}
use node_access.Prelude.{◌≡◌, refl, true, none, some, [], ◌∷◌, str, text_eq, text_Eq, if◌then◌else◌}
use node_access.Mux.Endpoint.{new_stream}
use node_access.Node.Mapping.{TcpMapping, VisitorMapping, auth_matches}
use node_access.Node.Events.{connected}
use node_access.Node.Serve.{ServeState, serve_bind, serve_visit, dial, refused}
use node_access.Node.Control.{served_event}
use node_access.Node.Select.{takes_stream}
use node_access.Node.Data.{visits}
use node_access.Node.Served.{served_end, run_served_data_connection}
use node_access.Node.Binding.{last_named}
use node_access.Node.Binding.Visits.{told_by}
use node_access.Node.Process.TwoRole.{
  RuntimeConfig, run_forever, visitor_end, spawn_visitor_listener,
}
use node_access.Node.Process.Reaches.{Serving, begins, told, bound, visitor_reaches_service}

abbrev ssh : TcpMapping
ssh = record { name = str "ssh"; addr = str "127.0.0.1:22"; auth = some (str "key") }

abbrev visitor : VisitorMapping
visitor = record {
  node = str "home";
  service = str "ssh";
  bind_addr = str "127.0.0.1:2222";
  auth = some (str "key");
}

abbrev config : RuntimeConfig
config = record {
  relay = str "wss://relay.example.com";
  secret = none;
  name = str "home";
  providers = ssh ∷ [];
  visitors = [];
  connection_id = none;
}

abbrev visiting : RuntimeConfig
visiting = record config { name = str "laptop"; providers = []; visitors = visitor ∷ [] }

-- Its visitor's connection has been told of and has bound a service.
abbrev serving : ServeState
serving =
    (serve_bind 3 (str "access-laptop-to-home") (str "web") none
      (served_event (connected (str "access-laptop-to-home")) (run_forever config).state).1).1

serving-Serving : Serving config serving
serving-Serving =
    bound 3 (str "access-laptop-to-home") (str "web") none
      (told (connected (str "access-laptop-to-home")) begins)

visitor_reaches_service_example :
    let near = spawn_visitor_listener visitor true (true ∷ []) (visitor_end visiting).1 in
    let r =
      run_served_data_connection 3
        (str "access-laptop-to-home")
        (takes_stream ∷ [])
        (serving, told_by near.1 served_end) in
    (near.0 ≡ new_stream 1 0 ∷ [])
    × (r.0 ≡ visits visitor.service visitor.auth (new_stream 1 0) ∷ [])
    × (serve_visit visitor.service visitor.auth r.1.1.0
        ≡ (if auth_matches ssh.auth visitor.auth then dial ssh.addr else refused))
unfolding last_named text_eq
visitor_reaches_service_example =
    visitor_reaches_service config visiting serving visitor ssh 3 (str "access-laptop-to-home")
      serving-Serving refl

abbrev listed : Args
listed = record {
  relay = str "https://relay.example.com/";
  secret = none;
  name = str "laptop";
  list = true;
  providers = [];
  visitors = visitor ∷ [];
  connection_id = none;
}

listing :
    main (λ t. t) listed
    ≡ prints (
        (10 ∷ str "Configured node-access:")
        ∷ rule
        ∷ str
            "Self node: laptop | Relay: wss://relay.example.com/ws?serverId=laptop&role=server&v=2"
        ∷ str "Visitor: home:ssh -> 127.0.0.1:2222"
        ∷ rule
        ∷ str "relay does not provide directory listing."
        ∷ [])
unfolding main print_listing visitor_line build_ws_url ws_base trim_slashes strip_prefix ends_with
listing = refl
