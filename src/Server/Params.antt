-- ===== src/Server/Params.antt =====
-- `validate_params` and `build_peer_meta` of crates/relay/src/server.rs.
use node_access.Prelude.{
  ℕ, ◌≡◌, refl, Option, none, some, ◌++◌, Text, str, text_Eq, if◌then◌else◌, trim, is_empty, ◌⊎◌,
  inl, inr, arith,
}
use node_access.Protocol.{
  ConnectionRole, server, client, RelayVersion, v1, v2, WsParams, Result, ok, err, parse_role,
  parse_version,
}
use node_access.Session.State.{
  PeerId, PeerMeta, PeerKind, v1_server, v1_client, v2_server_control, v2_server_data, v2_client,
  SessionKey,
}

pub record RawWsParams : Type 0 where
  pub server_id : Option Text
  pub role : Option Text
  pub v : Option Text
  pub connection_id : Option Text

-- `.map(|value| value.trim().to_string()).filter(|value| !value.is_empty())`
unfoldable pub trimmed : Option Text → Option Text
trimmed none = none
trimmed (some value) = if is_empty (trim value) then none else some (trim value)

-- A refusal: the status, the message and the query as it came.
pub record Refusal : Type 0 where
  pub status : ℕ
  pub message : Text
  pub raw_query : RawWsParams

pub data Validated : Type 0 where
  accepted : WsParams → Validated
  refused : Refusal → Validated

abbrev pub bad_request : Text → RawWsParams → Validated
bad_request message raw = refused (record { status = 400; message = message; raw_query = raw })

with_version : RawWsParams → Text → ConnectionRole → Result RelayVersion → Validated
with_version raw server_id role (err message) = bad_request message raw
with_version raw server_id role (ok version) = accepted (record {
  server_id = server_id;
  role = role;
  version = version;
  connection_id = trimmed raw.connection_id;
})

unfoldable pub parsed_role : Option Text → Option ConnectionRole
parsed_role none = none
parsed_role (some value) = parse_role value

with_role : RawWsParams → Text → Option ConnectionRole → Validated
unfolding with_version
with_role raw server_id none = bad_request (str "Missing or invalid role parameter") raw
with_role raw server_id (some role) = with_version raw server_id role (parse_version raw.v)

with_server_id : RawWsParams → Option Text → Validated
unfolding with_role parsed_role
with_server_id raw none = bad_request (str "Missing serverId parameter") raw
with_server_id raw (some server_id) = with_role raw server_id (parsed_role raw.role)

unfoldable pub validate_params : RawWsParams → Validated
unfolding with_server_id
validate_params raw = with_server_id raw (trimmed raw.server_id)

-- The session of a connection.
unfoldable pub session_key : WsParams → SessionKey
session_key params = record { server_id = params.server_id; version = params.version }

-- The id of the connection: a v2 client without one gets a new one.
unfoldable pub peer_connection_id : RelayVersion → ConnectionRole → Option Text → Text → Option Text
peer_connection_id v2 client none fresh = some fresh
peer_connection_id _ _ connection_id fresh = connection_id

-- The last arm of the source, a v2 client without an id, is `unreachable!()`: `none`.
unfoldable pub peer_kind : RelayVersion → ConnectionRole → Option Text → Option PeerKind
peer_kind v1 server _ = some v1_server
peer_kind v1 client _ = some v1_client
peer_kind v2 server none = some v2_server_control
peer_kind v2 server (some connection_id) = some (v2_server_data connection_id)
peer_kind v2 client (some connection_id) = some (v2_client connection_id)
peer_kind v2 client none = none

-- `generate_connection_id`, of the UUID's simple form.
unfoldable pub generate_connection_id : Text → Text
generate_connection_id simple = str "conn_" ++ simple

meta_of : PeerId → WsParams → Option Text → Option PeerKind → Option PeerMeta
meta_of peer_id params connection_id none = none
meta_of peer_id params connection_id (some kind) = some (record {
  peer_id = peer_id;
  server_id = params.server_id;
  role = params.role;
  version = params.version;
  connection_id = connection_id;
  kind = kind;
})

-- The new peer id and the new UUID are arguments; `none` is a panic.
unfoldable pub build_peer_meta : WsParams → PeerId → Text → Option PeerMeta
unfolding meta_of generate_connection_id peer_connection_id peer_kind
build_peer_meta params peer_id simple =
    let connection_id =
      peer_connection_id params.version params.role params.connection_id
        (generate_connection_id simple) in
    meta_of peer_id params connection_id (peer_kind params.version params.role connection_id)

-- What a kind says of the parameters.
abbrev pub kind_version : PeerKind → RelayVersion
kind_version v1_server = v1
kind_version v1_client = v1
kind_version _ = v2

abbrev pub kind_role : PeerKind → ConnectionRole
kind_role v1_client = client
kind_role (v2_client id) = client
kind_role _ = server

abbrev pub kind_id : PeerKind → Option Text → Option Text
kind_id v1_server id = id
kind_id v1_client id = id
kind_id v2_server_control id = none
kind_id (v2_server_data id) _ = some id
kind_id (v2_client id) _ = some id

-- What is said of the meta that is built.
abbrev pub IsMeta : Text → WsParams → PeerMeta → Type 0
IsMeta simple params meta =
    (kind_version meta.kind ≡ params.version)
    × (kind_role meta.kind ≡ params.role)
    × (kind_id meta.kind meta.connection_id ≡ meta.connection_id)
    × (meta.server_id ≡ params.server_id)
    × ((meta.connection_id ≡ params.connection_id)
        ⊎ ((meta.kind ≡ v2_client (generate_connection_id simple)) × (params.connection_id ≡ none)))

abbrev Built : Text → PeerId → WsParams → Type 0
Built simple peer_id params =
    (meta : PeerMeta) × (build_peer_meta params peer_id simple ≡ some meta)
    × IsMeta simple params meta

built :
    (version : RelayVersion) (role : ConnectionRole) (connection_id : Option Text)
    (server_id : Text) (peer_id : PeerId) (simple : Text)
    → Built simple peer_id (record {
      server_id = server_id;
      role = role;
      version = version;
      connection_id = connection_id;
    })
unfolding build_peer_meta
built v1 server id server_id peer_id simple = (
  record {
    peer_id = peer_id;
    server_id = server_id;
    role = server;
    version = v1;
    connection_id = id;
    kind = v1_server;
  },
  refl,
  (refl, refl, refl, refl, inl refl),
)
built v1 client id server_id peer_id simple = (
  record {
    peer_id = peer_id;
    server_id = server_id;
    role = client;
    version = v1;
    connection_id = id;
    kind = v1_client;
  },
  refl,
  (refl, refl, refl, refl, inl refl),
)
built v2 server none server_id peer_id simple = (
  record {
    peer_id = peer_id;
    server_id = server_id;
    role = server;
    version = v2;
    connection_id = none;
    kind = v2_server_control;
  },
  refl,
  (refl, refl, refl, refl, inl refl),
)
built v2 server (some id) server_id peer_id simple = (
  record {
    peer_id = peer_id;
    server_id = server_id;
    role = server;
    version = v2;
    connection_id = some id;
    kind = v2_server_data id;
  },
  refl,
  (refl, refl, refl, refl, inl refl),
)
built v2 client (some id) server_id peer_id simple = (
  record {
    peer_id = peer_id;
    server_id = server_id;
    role = client;
    version = v2;
    connection_id = some id;
    kind = v2_client id;
  },
  refl,
  (refl, refl, refl, refl, inl refl),
)
built v2 client none server_id peer_id simple = (
  record {
    peer_id = peer_id;
    server_id = server_id;
    role = client;
    version = v2;
    connection_id = some (generate_connection_id simple);
    kind = v2_client (generate_connection_id simple);
  },
  refl,
  (refl, refl, refl, refl, inr (refl, refl)),
)

-- Building the meta of a peer never panics, and the kind that it gets agrees with the version and
-- the role of the parameters and with the connection id of the meta, which is that of the
-- parameters, but that a v2 client without a connection id gets a generated one; the server id is
-- the parameters' one.
pub build_peer_meta_total :
    (params : WsParams) (peer_id : PeerId) (simple : Text)
    → (meta : PeerMeta) × (build_peer_meta params peer_id simple ≡ some meta)
      × IsMeta simple params meta
build_peer_meta_total params peer_id simple =
    built params.version params.role params.connection_id params.server_id peer_id simple

-- A request that is accepted has a server id that is not blank, a role and a version that parse;
-- the parameters are then these, with the trimmed ids, a blank connection id counting as none.
pub validate_params_accepts :
    (raw : RawWsParams) (params : WsParams)
    → validate_params raw ≡ accepted params
    → (trimmed raw.server_id ≡ some params.server_id)
      × (parsed_role raw.role ≡ some params.role)
      × (parse_version raw.v ≡ ok params.version)
      × (params.connection_id ≡ trimmed raw.connection_id)
unfolding validate_params
validate_params_accepts raw params e = ground arith
