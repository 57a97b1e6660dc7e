-- ===== src/Node/Tests.antt =====
-- Witnesses of the theorems on the nodes.
use node_access.Prelude.{◌≡◌, refl, some, none, [], ◌∷◌, Text, str, text_eq, text_Eq}
use node_access.HashMap.{get, insert}
use node_access.Runtime.Samples.{sample_json}
use node_access.Session.Ops.{sync_text, connected_text, disconnected_text, pong_text}
use node_access.Node.Events.{connected, disconnected, sync, pong, read_event, read_event-relay}
use node_access.Node.Mapping.{TcpMapping}
use node_access.Node.Relay.{
  RelayState, new_relay, control_event, start_all, start_connection, handle_bind, bind_over,
  register_provider,
}
use node_access.Node.Providers.{bound, Provides, Step-Provides}

read_event-relay_example :
    (read_event sample_json (connected_text sample_json (str "laptop"))
      ≡ some (connected (str "laptop")))
    × (read_event sample_json (disconnected_text sample_json (str "laptop"))
        ≡ some (disconnected (str "laptop")))
    × (read_event sample_json (sync_text sample_json (str "a" ∷ str "b" ∷ []))
        ≡ some (sync (str "a" ∷ str "b" ∷ [])))
    × (read_event sample_json (pong_text sample_json 7) ≡ some pong)
read_event-relay_example = read_event-relay sample_json (str "laptop") (str "a" ∷ str "b" ∷ []) 7

abbrev ssh : Text
ssh = str "ssh"

abbrev joined : RelayState
joined = (control_event (sync (str "a" ∷ str "b" ∷ [])) new_relay).1

abbrev offered : RelayState
offered = (handle_bind 4 (str "a") ssh none joined).1

b_IsActive : get (str "b") offered.active_connections ≡ some tt
unfolding handle_bind bind_over register_provider control_event start_all start_connection get
    insert text_eq
b_IsActive = refl

-- The other connection binds the same name.
Step-Provides_example : Provides (str "a") ssh (handle_bind 5 (str "b") ssh none offered).1
unfolding handle_bind bind_over register_provider get insert text_eq control_event start_all
    start_connection
Step-Provides_example =
    Step-Provides {s = offered} (str "a") ssh (bound 5 (str "b") ssh none b_IsActive) tt
      (record { connection_id = str "a"; mux = 4; auth = none }, refl, refl)

abbrev web : TcpMapping
web = record { name = str "web"; addr = str "127.0.0.1:80"; auth = some (str "ops") }
