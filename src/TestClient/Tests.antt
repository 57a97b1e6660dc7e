-- ===== src/TestClient/Tests.antt =====
-- Witnesses of the theorems on the test client, and tests of its errors.
use node_access.Prelude.{
  ◌≡◌, refl, Option, none, some, [], ◌∷◌, Text, str, text_eq, text_Eq, trim, is_empty, ◌==◌,
  if◌then◌else◌, arith,
}
use node_access.Protocol.{v2, ok, err}
use node_access.Session.State.{SessionKey, PeerKind, v2_server_control, v2_server_data, v2_client}
use node_access.Server.Params.{RawWsParams}
use node_access.Joining.{raw_query, Plain}
use node_access.TestClient.{
  Settings, default_settings, parse_options, plan_of, client_plan, is_option, set_option,
}
use node_access.TestClient.Arguments.{args_of, parse_options-args_of}
use node_access.TestClient.Joining.{asking, plan_joins, plan_of-joins}

abbrev settings : Settings
settings = record default_settings {
  server_id = some (str "home");
  send_text = some (str "hi");
  receive_count = 12;
}

parse_options-args_of_example : parse_options (args_of settings) default_settings ≡ ok settings
parse_options-args_of_example = parse_options-args_of settings (omega arith)

-- The queries of three URLs.
abbrev decode : Text → Option RawWsParams
decode url =
    if url == str "ws://127.0.0.1:8787/ws?serverId=home&role=server&v=2"
    then some (raw_query (str "home") (str "server") none)
    else if url == str "ws://127.0.0.1:8787/ws?serverId=home&role=server&v=2&connectionId=laptop"
    then some (raw_query (str "home") (str "server") (some (str "laptop")))
    else if url == str "ws://127.0.0.1:8787/ws?serverId=home&role=client&v=2&connectionId=laptop"
    then some (raw_query (str "home") (str "client") (some (str "laptop")))
    else none

home-Plain : Plain (str "home")
unfolding trim is_empty
home-Plain = record { unpadded = refl; nonempty = refl }

laptop-Plain : Plain (str "laptop")
unfolding trim is_empty
laptop-Plain = record { unpadded = refl; nonempty = refl }

plan_of-joins_example :
    let key : SessionKey = record { server_id = str "home"; version = v2 } in
    let come : Text → Option Text → Option (SessionKey × PeerKind) = λ mode connection_id.
      plan_joins decode 1
        (str "77")
        (plan_of mode (asking (str "ws://127.0.0.1:8787") (str "home") connection_id none 1)) in
    (come (str "control") none ≡ some (key, v2_server_control))
    × (come (str "server-data") (some (str "laptop")) ≡ some (key, v2_server_data (str "laptop")))
    × (come (str "client") (some (str "laptop")) ≡ some (key, v2_client (str "laptop")))
    × (come (str "control") (some (str "laptop")) ≡ some (key, v2_server_data (str "laptop")))
unfolding text_eq
plan_of-joins_example =
    plan_of-joins decode 1 (str "77") (str "ws://127.0.0.1:8787") (str "home") (str "laptop") none 1
      refl refl refl home-Plain laptop-Plain

missing_value :
    client_plan (str "client" ∷ str "--server-id" ∷ []) ≡ err (str "missing --server-id value")
unfolding client_plan parse_options is_option text_eq
missing_value = refl

missing_server :
    client_plan (str "client" ∷ str "--version" ∷ str "1" ∷ []) ≡ err (str "missing --server-id")
unfolding client_plan plan_of parse_options set_option text_eq
missing_server = refl
