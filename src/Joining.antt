-- ===== src/Joining.antt =====
-- How a node's connections come into a session: the URLs of
-- crates/node-access-3role/src/relay_ws.rs, and `ws_handler` and `build_peer_meta` of
-- crates/relay/src/server.rs, which take what they say. The reading of a URL's query, which is
-- axum's, is a function.
pub mod Nodes
mod Tests
use node_access.Prelude.{
  ℕ, ◌≡◌, refl, ap, Bool, true, false, Option, none, some, [], ◌++◌, Text, str, text_eq, trim,
  is_empty, if◌then◌else◌,
}
use node_access.Protocol.{
  v2, ConnectionRole, server, client, ok, WsParams, parse_role, parse_version,
}
use node_access.Session.State.{
  SessionKey, PeerId, PeerMeta, PeerKind, v2_server_control, v2_server_data, v2_client,
}
use node_access.Server.Params.{
  RawWsParams, accepted, validate_params, trimmed, parsed_role, session_key, build_peer_meta,
}
use node_access.Server.App.{Response, answer, upgrade, upgraded, response_of, ws_handler}
use node_access.Node.CommandLine.{
  build_ws_url, connection_query, ws_base, connect_control, connect_server_data,
  connect_client_data,
}

-- A URL with a query of these parts, the last of which may be empty.
abbrev pub url_text : Text → Text → Text → Text → Text
url_text base server_id role rest =
    base ++ (str "?serverId=" ++ (server_id ++ (str "&role=" ++ (role ++ (str "&v=2" ++ rest)))))

-- What a URL says, once it is decoded.
abbrev pub raw_query : Text → Text → Option Text → RawWsParams
raw_query server_id role connection_id = record {
  server_id = some server_id;
  role = some role;
  v = some (str "2");
  connection_id = connection_id;
}

-- A text that `trim` leaves as it is, and that is not empty.
pub record Plain (t : Text) : Type 0 where
  pub unpadded : trim t ≡ t
  pub nonempty : is_empty t ≡ false

pub trimmed-Plain : (t : Text) → Plain t → trimmed (some t) ≡ some t
unfolding trimmed
trimmed-Plain t p = rw (p.unpadded, p.nonempty) refl

second_version : parse_version (some (str "2")) ≡ ok v2
unfolding parse_version trim text_eq
second_version = refl

-- A query with a role that parses, whose ids are as they are trimmed, is accepted.
raw_query-accepted :
    (server_id word : Text) (role : ConnectionRole) (connection_id : Option Text)
    → Plain server_id
    → parse_role word ≡ some role
    → trimmed connection_id ≡ connection_id
    → validate_params (raw_query server_id word connection_id)
      ≡ accepted (record {
        server_id = server_id;
        role = role;
        version = v2;
        connection_id = connection_id;
      })
unfolding validate_params parsed_role
raw_query-accepted server_id word role connection_id p r t =
    rw (trimmed-Plain server_id p) (rw (r) (rw (second_version) (rw t refl)))

unfoldable pub with_meta : WsParams → Option PeerMeta → Option (SessionKey × PeerKind)
with_meta params none = none
with_meta params (some meta) = some (session_key params, meta.kind)

with_response : PeerId → Text → Response → Option (SessionKey × PeerKind)
unfolding with_meta build_peer_meta
with_response peer_id simple (answer status message) = none
with_response peer_id simple (upgrade params) =
    with_meta params (build_peer_meta params peer_id simple)

with_query : PeerId → Text → Option RawWsParams → Option (SessionKey × PeerKind)
unfolding with_response ws_handler
with_query peer_id simple none = none
with_query peer_id simple (some raw) = with_response peer_id simple (ws_handler true raw)

module _ (decode : Text → Option RawWsParams) (peer_id : PeerId) (simple : Text) where
  -- The session that a socket of the URL comes into, and its kind there.
  unfoldable pub joins : Text → Option (SessionKey × PeerKind)
  unfolding with_query
  joins url = with_query peer_id simple (decode url)

  pub joined :
      (url server_id word : Text) (role : ConnectionRole) (connection_id : Option Text)
      (kind : PeerKind)
      → decode url ≡ some (raw_query server_id word connection_id)
      → Plain server_id
      → parse_role word ≡ some role
      → trimmed connection_id ≡ connection_id
      → with_meta
          (record {
            server_id = server_id;
            role = role;
            version = v2;
            connection_id = connection_id;
          })
          (build_peer_meta
            (record {
              server_id = server_id;
              role = role;
              version = v2;
              connection_id = connection_id;
            })
            peer_id
            simple)
        ≡ some (record { server_id = server_id; version = v2 }, kind)
      → joins url ≡ some (record { server_id = server_id; version = v2 }, kind)
  unfolding joins with_query with_response ws_handler response_of upgraded
  joined url server_id word role connection_id kind reads p r t meta =
      rw (reads, raw_query-accepted server_id word role connection_id p r t) meta

  -- The control socket and the data socket of a serving node, and the data socket of a client that
  -- connects to it with the same connection id, come into the same session of the relay, of the
  -- node's id and version 2, as its control socket, and as the server data socket and a client of
  -- that connection id; where the ids are not empty and have no blanks around them, and a query of
  -- the encoded ids, the role and version 2 is read as what went into it.
  pub connections_meet :
      (encode : Text → Text) (relay_base server_id id : Text)
      → decode (url_text (ws_base relay_base) (encode server_id) (str "server") [])
        ≡ some (raw_query server_id (str "server") none)
      → decode (
          url_text
            (ws_base relay_base)
            (encode server_id)
            (str "server")
            (str "&connectionId=" ++ encode id))
        ≡ some (raw_query server_id (str "server") (some id))
      → decode (
          url_text
            (ws_base relay_base)
            (encode server_id)
            (str "client")
            (str "&connectionId=" ++ encode id))
        ≡ some (raw_query server_id (str "client") (some id))
      → Plain server_id
      → Plain id
      → let key : SessionKey = record { server_id = server_id; version = v2 } in
        (joins (connect_control encode relay_base server_id) ≡ some (key, v2_server_control))
        × (joins (connect_server_data encode relay_base server_id id)
            ≡ some (key, v2_server_data id))
        × (joins (connect_client_data encode relay_base server_id (some id))
            ≡ some (key, v2_client id))
  unfolding connect_control connect_server_data connect_client_data build_ws_url connection_query
  connections_meet encode relay_base server_id id to_control to_data to_client s i = (
    joined (connect_control encode relay_base server_id) server_id (str "server") server none
        v2_server_control to_control s (unfold parse_role text_eq in refl) (unfold trimmed in refl)
        (unfold with_meta build_peer_meta session_key in refl),
    joined (connect_server_data encode relay_base server_id id) server_id (str "server") server
        (some id) (v2_server_data id) to_data s (unfold parse_role text_eq in refl)
        (trimmed-Plain id i) (unfold with_meta build_peer_meta session_key in refl),
    joined (connect_client_data encode relay_base server_id (some id)) server_id (str "client")
        client (some id) (v2_client id) to_client s (unfold parse_role text_eq in refl)
        (trimmed-Plain id i) (unfold with_meta build_peer_meta session_key in refl),
  )
