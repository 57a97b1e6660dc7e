-- ===== src/TestClient/Joining.antt =====
-- The sessions that the sockets of crates/relay/src/bin/relay-test-client.rs come into on the
-- relay.
use node_access.Prelude.{
  ℕ, ◌≡◌, refl, sym, ap, ◌∙◌, Option, none, some, [], ◌++◌, append_assoc, Text, str, text_eq,
  text_Eq,
}
use node_access.Protocol.{v2, server, client, parse_role, Result, ok, err}
use node_access.Session.State.{
  SessionKey, PeerId, PeerKind, v2_server_control, v2_server_data, v2_client,
}
use node_access.Server.Params.{RawWsParams, build_peer_meta, session_key, trimmed}
use node_access.Joining.{url_text, raw_query, Plain, joins, joined, with_meta, trimmed-Plain}
use node_access.TestClient.{Settings, Plan, plan_of, role_of, required, connection_part}

-- The settings with version 2.
abbrev pub asking : Text → Text → Option Text → Option Text → ℕ → Settings
asking base_url server_id connection_id send_text receive_count = record {
  base_url = base_url;
  server_id = some server_id;
  connection_id = connection_id;
  send_text = send_text;
  version = str "2";
  receive_count = receive_count;
}

abbrev asked_url : Text → Text → Text → Text → Text
asked_url base_url server_id role rest =
    base_url
    ++ (str "/ws?serverId="
        ++ (server_id ++ (str "&role=" ++ (role ++ (str "&v=" ++ (str "2" ++ rest))))))

asked_url_lem :
    (base_url server_id role rest : Text)
    → asked_url base_url server_id role rest ≡ url_text (base_url ++ str "/ws") server_id role rest
asked_url_lem base_url server_id role rest = sym (
    append_assoc base_url (str "/ws")
      (str "?serverId=" ++ (server_id ++ (str "&role=" ++ (role ++ (str "&v=2" ++ rest))))))

module _ (decode : Text → Option RawWsParams) (peer_id : PeerId) (simple : Text) where
  -- The session that the socket of a plan comes into, and its kind there.
  abbrev pub plan_joins : Result Plan → Option (SessionKey × PeerKind)
  plan_joins (ok plan) = joins decode peer_id simple plan.url
  plan_joins (err message) = none

  -- The test client's socket is of the kind that its mode says, and in the session of its server id
  -- and version 2, as a node's is: the control socket in mode `control`, the server data socket or
  -- a client of the connection id in the modes `server-data` and `client`; but in mode `control`
  -- with a connection id it is the server data socket of that id. This holds where the ids are not
  -- empty and have no blanks around them, and the relay reads from the queries what went into them.
  pub plan_of-joins :
      (base_url server_id id : Text) (send_text : Option Text) (receive_count : ℕ)
      → decode (url_text (base_url ++ str "/ws") server_id (str "server") [])
        ≡ some (raw_query server_id (str "server") none)
      → decode
          (url_text (base_url ++ str "/ws") server_id (str "server") (str "&connectionId=" ++ id))
        ≡ some (raw_query server_id (str "server") (some id))
      → decode
          (url_text (base_url ++ str "/ws") server_id (str "client") (str "&connectionId=" ++ id))
        ≡ some (raw_query server_id (str "client") (some id))
      → Plain server_id
      → Plain id
      → let key : SessionKey = record { server_id = server_id; version = v2 } in
        let come : Text → Option Text → Option (SessionKey × PeerKind) = λ mode connection_id.
          plan_joins
            (plan_of mode (asking base_url server_id connection_id send_text receive_count)) in
        (come (str "control") none ≡ some (key, v2_server_control))
        × (come (str "server-data") (some id) ≡ some (key, v2_server_data id))
        × (come (str "client") (some id) ≡ some (key, v2_client id))
        × (come (str "control") (some id) ≡ some (key, v2_server_data id))
  unfolding plan_of role_of required connection_part text_eq
  plan_of-joins base_url server_id id send_text receive_count to_control to_data to_client s i =
      let meets : (role rest : Text)
          → plan_joins (
              ok (record {
                url = asked_url base_url server_id role rest;
                send_text = send_text;
                receive_count = receive_count;
              }))
            ≡ joins decode peer_id simple (url_text (base_url ++ str "/ws") server_id role rest) =
        λ role rest.
          ap (λ (url : Text). joins decode peer_id simple url)
            (asked_url_lem base_url server_id role rest) in
      let id_part = str "&connectionId=" ++ id in
      let base = base_url ++ str "/ws" in
      let to_server_data =
        meets (str "server") id_part
        ∙ joined decode peer_id simple (url_text base server_id (str "server") id_part) server_id
            (str "server") server (some id) (v2_server_data id) to_data s
            (unfold parse_role text_eq in refl) (trimmed-Plain id i)
            (unfold with_meta build_peer_meta session_key in refl) in
      (
        meets (str "server") []
            ∙ joined decode peer_id simple (url_text base server_id (str "server") []) server_id
                (str "server") server none v2_server_control to_control s
                (unfold parse_role text_eq in refl) (unfold trimmed in refl)
                (unfold with_meta build_peer_meta session_key in refl),
        to_server_data,
        meets (str "client") id_part
            ∙ joined decode peer_id simple (url_text base server_id (str "client") id_part)
                server_id (str "client") client (some id) (v2_client id) to_client s
                (unfold parse_role text_eq in refl) (trimmed-Plain id i)
                (unfold with_meta build_peer_meta session_key in refl),
        to_server_data,
      )
