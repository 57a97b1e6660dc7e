-- ===== src/Protocol.antt =====
-- crates/relay/src/protocol.rs: the roles and versions of a connection, and its parameters.
use node_access.Prelude.{Option, none, some, str, Text, ◌==◌, if◌then◌else◌, trim, text_Eq}

pub data ConnectionRole : Type 0 where
  server client : ConnectionRole

pub data RelayVersion : Type 0 where
  v1 v2 : RelayVersion

-- `Result<Self, &'static str>`
pub data Result {ℓ} (A : Type ℓ) : Type ℓ where
  ok : A → Result A
  err : Text → Result A

unfoldable pub parse_role : Text → Option ConnectionRole
parse_role value =
    if value == str "server"
    then some server
    else if value == str "client"
    then some client
    else none

unfoldable pub role_as_str : ConnectionRole → Text
role_as_str server = str "server"
role_as_str client = str "client"

parse_trimmed : Text → Result RelayVersion
parse_trimmed value =
    if value == str ""
    then ok v1
    else if value == str "1"
    then ok v1
    else if value == str "2"
    then ok v2
    else err (str "Invalid v parameter (expected 1 or 2)")

unfoldable pub parse_version : Option Text → Result RelayVersion
unfolding parse_trimmed
parse_version none = ok v1
parse_version (some raw) = parse_trimmed (trim raw)

unfoldable pub version_as_str : RelayVersion → Text
version_as_str v1 = str "1"
version_as_str v2 = str "2"

pub record WsParams : Type 0 where
  pub server_id : Text
  pub role : ConnectionRole
  pub version : RelayVersion
  pub connection_id : Option Text
