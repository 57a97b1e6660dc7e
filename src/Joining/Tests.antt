-- ===== src/Joining/Tests.antt =====
-- Witness of the theorem on how connections come into a session.
use node_access.Prelude.{
  [], ◌≡◌, refl, Option, none, some, Text, str, text_eq, text_Eq, trim, is_empty, ◌==◌,
  if◌then◌else◌,
}
use node_access.Protocol.{v2}
use node_access.Session.State.{SessionKey, v2_server_control, v2_server_data, v2_client}
use node_access.Server.Params.{RawWsParams}
use node_access.Node.CommandLine.{
  build_ws_url, ws_base, trim_slashes, strip_prefix, ends_with, connect_control,
  connect_server_data, connect_client_data,
}
use node_access.Node.Mapping.{VisitorMapping}
use node_access.Node.Serve.{visitor_connection_id}
use node_access.Node.Process.TwoRole.{RuntimeConfig, control_url, served_url, visitor_url}
use node_access.Joining.Nodes.{visitor_meets_node}
use node_access.Joining.{raw_query, Plain, joins, connections_meet}

-- The queries of three URLs.
abbrev decode : Text → Option RawWsParams
decode url =
    if url == str "wss://relay.example.org/ws?serverId=home&role=server&v=2"
    then some (raw_query (str "home") (str "server") none)
    else if url
        == str "wss://relay.example.org/ws?serverId=home&role=server&v=2&connectionId=laptop"
    then some (raw_query (str "home") (str "server") (some (str "laptop")))
    else if url
        == str "wss://relay.example.org/ws?serverId=home&role=client&v=2&connectionId=laptop"
    then some (raw_query (str "home") (str "client") (some (str "laptop")))
    else none

abbrev relay_base : Text
relay_base = str "https://relay.example.org/"

home-Plain : Plain (str "home")
unfolding trim is_empty
home-Plain = record { unpadded = refl; nonempty = refl }

laptop-Plain : Plain (str "laptop")
unfolding trim is_empty
laptop-Plain = record { unpadded = refl; nonempty = refl }

-- Ids of letters need no encoding.
abbrev encode : Text → Text
encode t = t

connections_meet_example :
    let key : SessionKey = record { server_id = str "home"; version = v2 } in
    (joins decode 1 (str "77") (connect_control encode relay_base (str "home"))
      ≡ some (key, v2_server_control))
    × (joins decode 1 (str "77") (connect_server_data encode relay_base (str "home") (str "laptop"))
        ≡ some (key, v2_server_data (str "laptop")))
    × (joins decode 1
          (str "77")
          (connect_client_data encode relay_base (str "home") (some (str "laptop")))
        ≡ some (key, v2_client (str "laptop")))
unfolding text_eq build_ws_url ws_base trim_slashes strip_prefix ends_with connect_control
    connect_server_data connect_client_data
connections_meet_example =
    connections_meet decode 1 (str "77") encode relay_base (str "home") (str "laptop") refl refl
      refl home-Plain laptop-Plain

abbrev config : RuntimeConfig
config = record {
  relay = relay_base;
  secret = none;
  name = str "home";
  providers = [];
  visitors = [];
  connection_id = none;
}

-- Its visitors connect under an id of its own.
abbrev visiting : RuntimeConfig
visiting = record config { name = str "away"; connection_id = some (str "laptop") }

abbrev visitor : VisitorMapping
visitor = record {
  node = str "home";
  service = str "ssh";
  bind_addr = str "127.0.0.1:2222";
  auth = none;
}

visitor_meets_node_example :
    let key : SessionKey = record { server_id = str "home"; version = v2 } in
    (joins decode 1 (str "77") (control_url encode config) ≡ some (key, v2_server_control))
    × (joins decode 1 (str "77") (served_url encode config (str "laptop"))
        ≡ some (key, v2_server_data (str "laptop")))
    × (joins decode 1 (str "77") (visitor_url encode visiting visitor)
        ≡ some (key, v2_client (str "laptop")))
unfolding text_eq ws_base trim_slashes strip_prefix ends_with visitor_connection_id
visitor_meets_node_example =
    visitor_meets_node decode 1 (str "77") encode config visiting visitor refl refl refl refl refl
      home-Plain laptop-Plain
