-- ===== src/Joining/Nodes.antt =====
-- How a visitor of crates/node-access-2role/src/bin/node-access.rs and the node that it visits come
-- together: their URLs, the session of the relay, and the crypto of their ends.
use node_access.Prelude.{
  true, ◌<◌, All, List, arith, ◌≡◌, refl, ap, ◌∙◌, Option, none, some, [], ◌++◌, Text, str,
}
use node_access.Protocol.{v2}
use node_access.Session.State.{SessionKey, PeerId, v2_server_control, v2_server_data, v2_client}
use node_access.Server.Params.{RawWsParams}
use node_access.Mux.Crypto.{Aead, FrameCrypto, from_secret}
use node_access.Mux.Loops.{Agree, read_loop, write_loop, written, read_loop-write_loop}
use node_access.Mux.Frame.{Serde, OpenRequest, ControlMessage, MuxFrame, frame_stream, u32_mod}
use node_access.Mux.Reader.{Reader, dispatch_all}
use node_access.Node.Mapping.{VisitorMapping}
use node_access.Node.Serve.{visitor_connection_id}
use node_access.Node.CommandLine.{ws_base, connect_client_data}
use node_access.Node.Process.TwoRole.{
  RuntimeConfig, control_url, served_url, visitor_url, served_crypto, visitor_crypto,
}
use node_access.Joining.{url_text, raw_query, Plain, joins, connections_meet}

module _ (decode : Text → Option RawWsParams) (peer_id : PeerId) (simple : Text) where
  -- A visitor meets the node that it is for: where both have the same relay, the serving node's
  -- control socket, the data socket that it opens for the visitor's connection id, and the
  -- visitor's socket come into the session of the serving node's name, as its control socket, as
  -- the server data socket of that id and as a client of it. The ids are not empty and have no
  -- blanks around them, and a query of the encoded ids, the role and version 2 is read as what went
  -- into it.
  pub visitor_meets_node :
      (encode : Text → Text) (config visiting : RuntimeConfig) (visitor : VisitorMapping)
      → visiting.relay ≡ config.relay
      → visitor.node ≡ config.name
      → let id = visitor_connection_id visiting.connection_id visiting.name visitor.node in
        let base = ws_base config.relay in
        let node = encode config.name in
        let part = str "&connectionId=" ++ encode id in
        decode (url_text base node (str "server") [])
          ≡ some (raw_query config.name (str "server") none)
        → decode (url_text base node (str "server") part)
          ≡ some (raw_query config.name (str "server") (some id))
        → decode (url_text base node (str "client") part)
          ≡ some (raw_query config.name (str "client") (some id))
        → Plain config.name
        → Plain id
        → let key : SessionKey = record { server_id = config.name; version = v2 } in
          (joins decode peer_id simple (control_url encode config) ≡ some (key, v2_server_control))
          × (joins decode peer_id simple (served_url encode config id)
              ≡ some (key, v2_server_data id))
          × (joins decode peer_id simple (visitor_url encode visiting visitor)
              ≡ some (key, v2_client id))
  unfolding control_url served_url visitor_url
  visitor_meets_node encode config visiting visitor relay node to_control to_data to_client n i =
      let id = visitor_connection_id visiting.connection_id visiting.name visitor.node in
      let (control, data_socket, client_socket) =
        connections_meet decode peer_id simple encode config.relay config.name id to_control to_data
          to_client n i in
      let client_url : Text → Text → Text =
        λ relay node. connect_client_data encode relay node (some id) in
      (
        control,
        data_socket,
        ap (λ (r : Text). joins decode peer_id simple (client_url r visitor.node)) relay
            ∙ ap (λ (n : Text). joins decode peer_id simple (client_url config.relay n)) node
            ∙ client_socket,
      )

module _ (requests : Serde OpenRequest) (messages : Serde ControlMessage) (aead : Aead) where
  crypto_agrees :
      (secret : Option Text)
      → Agree requests messages aead (visitor_crypto aead secret) (served_crypto aead secret)
        × Agree requests messages aead (served_crypto aead secret) (visitor_crypto aead secret)
  unfolding visitor_crypto served_crypto from_secret
  crypto_agrees none = (tt, tt)
  crypto_agrees (some secret) = (
    record { same_key = refl; same_dir = refl; counter_fits = omega arith },
    record { same_key = refl; same_dir = refl; counter_fits = omega arith },
  )

  -- What the visitor's end writes to its connection, the serving end reads as the frames that it
  -- has written, and what the serving end writes, the visitor's: where both nodes have the same
  -- secret, or none, and the ids of the frames' streams are below 2^32.
  pub ends_agree :
      (config visiting : RuntimeConfig) (frames : List MuxFrame) (r : Reader)
      → visiting.secret ≡ config.secret
      → All (λ f. frame_stream requests messages f < u32_mod) frames
      → let near = visitor_crypto aead visiting.secret in
        let far = served_crypto aead config.secret in
        let all : Option (FrameCrypto aead) → Reader = λ sender.
          record (dispatch_all (written requests messages aead sender frames) r) {
            closed = true;
          } in
        (read_loop requests messages aead far (write_loop requests messages aead near frames) r
          ≡ all near)
        × (read_loop requests messages aead near (write_loop requests messages aead far frames) r
            ≡ all far)
  ends_agree config visiting frames r same k = rw same (
    read_loop-write_loop requests messages aead _ _ frames r (crypto_agrees config.secret).0 k,
    read_loop-write_loop requests messages aead _ _ frames r (crypto_agrees config.secret).1 k,
  )
