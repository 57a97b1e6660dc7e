-- ===== src/Node/Process/TwoRole.antt =====
-- crates/node-access-2role/src/bin/node-access.rs from its arguments on: the listing, the state and
-- the tasks of `run_forever`, and what its connections begin with.
use node_access.Prelude.{
  Bool, Option, none, some, List, [], ◌∷◌, ◌++◌, map, Text, str, text_Eq, if◌then◌else◌,
}
use node_access.Mux.Crypto.{Aead, FrameCrypto, from_secret}
use node_access.Mux.Endpoint.{Endpoint, VirtualStream, start}
use node_access.Node.Mapping.{TcpMapping, VisitorMapping}
use node_access.Node.Serve.{ServeState, new_serve, visitor_connection_id, visit_request}
use node_access.Node.CommandLine.{
  build_ws_url, connect_control, connect_server_data, connect_client_data,
}
use node_access.Node.Access.{send_binds, accept_loop}
use node_access.Node.Process.{Command, prints, runs, rule}

pub record Args : Type 0 where
  pub relay : Text
  pub secret : Option Text
  pub name : Text
  pub list : Bool
  pub providers : List TcpMapping
  pub visitors : List VisitorMapping
  pub connection_id : Option Text

pub record RuntimeConfig : Type 0 where
  pub relay : Text
  pub secret : Option Text
  pub name : Text
  pub providers : List TcpMapping
  pub visitors : List VisitorMapping
  pub connection_id : Option Text

unfoldable pub visitor_line : VisitorMapping → Text
visitor_line visitor =
    str "Visitor: "
    ++ (visitor.node ++ (str ":" ++ (visitor.service ++ (str " -> " ++ visitor.bind_addr))))

unfoldable pub print_listing : (Text → Text) → Args → List Text
unfolding visitor_line build_ws_url
print_listing encode args =
    (10 ∷ str "Configured node-access:")
      ∷ rule
      ∷ (str "Self node: "
          ++ (args.name
              ++ (str " | Relay: "
                  ++ build_ws_url encode args.relay args.name (str "server") none)))
      ∷ map visitor_line args.visitors
    ++ rule ∷ str "relay does not provide directory listing." ∷ []

unfoldable pub main : (Text → Text) → Args → Command RuntimeConfig
unfolding print_listing
main encode args =
    if args.list
    then prints (print_listing encode args)
    else runs (record {
      relay = args.relay;
      secret = args.secret;
      name = args.name;
      providers = args.providers;
      visitors = args.visitors;
      connection_id = args.connection_id;
    })

-- The state that the serving task begins with, and the visitors for which a task begins.
pub record Running : Type 0 where
  pub state : ServeState
  pub visitor_tasks : List VisitorMapping

unfoldable pub run_forever : RuntimeConfig → Running
unfolding new_serve
run_forever config = record { state = new_serve config.providers; visitor_tasks = config.visitors }

-- The URLs of the control channel, of the data connection for a client, and of a visitor's
-- connection.
unfoldable pub control_url : (Text → Text) → RuntimeConfig → Text
unfolding connect_control
control_url encode config = connect_control encode config.relay config.name

unfoldable pub served_url : (Text → Text) → RuntimeConfig → Text → Text
unfolding connect_server_data
served_url encode config connection_id =
    connect_server_data encode config.relay config.name connection_id

unfoldable pub visitor_url : (Text → Text) → RuntimeConfig → VisitorMapping → Text
unfolding connect_client_data visitor_connection_id
visitor_url encode config visitor =
    connect_client_data encode config.relay visitor.node
      (some (visitor_connection_id config.connection_id config.name visitor.node))

-- The crypto of a connection's two ends.
unfoldable pub served_crypto : (aead : Aead) → Option Text → Option (FrameCrypto aead)
unfolding from_secret
served_crypto aead none = none
served_crypto aead (some secret) = some (from_secret aead secret 1 0)

unfoldable pub visitor_crypto : (aead : Aead) → Option Text → Option (FrameCrypto aead)
unfolding from_secret
visitor_crypto aead none = none
visitor_crypto aead (some secret) = some (from_secret aead secret 0 1)

-- A visitor's end with its binds: the first that fails ends the connection.
unfoldable pub visitor_end : RuntimeConfig → Bool × Endpoint
unfolding start send_binds
visitor_end config = send_binds config.providers (start 1)

-- Whether the listener's address can be bound, and which `accept`s succeed; the streams it opens.
unfoldable pub spawn_visitor_listener :
    VisitorMapping → Bool → List Bool → Endpoint → List VirtualStream × Endpoint
unfolding accept_loop visit_request
spawn_visitor_listener visitor bound accepts e =
    if bound then accept_loop (visit_request visitor) accepts e else ([], e)
