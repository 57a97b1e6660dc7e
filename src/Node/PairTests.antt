-- ===== src/Node/PairTests.antt =====
-- Witnesses of the theorems on an access node and a relay node that are joined.
use node_access.Prelude.{none, some, List, [], ◌∷◌, Text, str}
use node_access.Mux.Frame.{bind, control_frame}
use node_access.Mux.Endpoint.{Endpoint, arrive}
use node_access.Node.Mapping.{TcpMapping}
use node_access.Node.Relay.{new_relay}
use node_access.Node.Data.{relay_end}
use node_access.Node.Access.{access_end}
use node_access.Node.Pair.{Pair}

abbrev id : Text
id = str "access-laptop"

abbrev services : List TcpMapping
services =
    record { name = str "web"; addr = str "127.0.0.1:80"; auth = none }
    ∷ record { name = str "ssh"; addr = str "127.0.0.1:22"; auth = some (str "key") }
    ∷ []

-- The first of the two binds has arrived.
abbrev one_bound : Pair
one_bound = record {
  access = record ((access_end services).1) {
    outbound = control_frame (bind (str "ssh") (some (str "key"))) ∷ [];
  };
  relay = arrive (control_frame (bind (str "web") none)) relay_end;
  state = new_relay;
  looked_up = [];
}
