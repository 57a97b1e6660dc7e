-- ===== src/Node/Process/ThreeRole.antt =====
-- crates/node-access-3role/src/bin/node-access.rs from its arguments on: the listing, and what a
-- run of `run_once` begins with.
use node_access.Prelude.{
  Bool, Option, none, some, List, [], ◌∷◌, ◌++◌, map, Text, str, if◌then◌else◌,
}
use node_access.Mux.Frame.{OpenRequest, socks, visit}
use node_access.Mux.Crypto.{Aead, FrameCrypto}
use node_access.Mux.Endpoint.{Endpoint}
use node_access.Node.Mapping.{TcpMapping}
use node_access.Node.CommandLine.{build_ws_url, connect_client_data}
use node_access.Node.Access.{access_connection_id, access_crypto, access_end, wants_socks5}
use node_access.Node.Process.{Command, prints, runs, rule}

pub record AccessArgs : Type 0 where
  pub relay : Text
  pub node : Text
  pub secret : Option Text
  pub name : Text
  pub socks5 : Text
  pub list : Bool
  pub no_socks5 : Bool
  pub providers : List TcpMapping
  pub visitors : List TcpMapping
  pub connection_id : Option Text

unfoldable pub relay_listing : (Text → Text) → AccessArgs → List Text
unfolding build_ws_url
relay_listing encode args =
    (10 ∷ str "Available Relay Nodes:")
    ∷ rule
    ∷ (str "[1] ID: "
        ++ (args.node
            ++ (str " | Relay: " ++ build_ws_url encode args.relay args.node (str "client") none)))
    ∷ rule
    ∷ str "relay does not provide directory listing; pass -node <ID> to connect."
    ∷ []

-- The requests of the listeners that begin, in order.
unfoldable pub listeners : AccessArgs → List OpenRequest
unfolding wants_socks5
listeners args =
    (if wants_socks5 args.no_socks5 args.socks5 then socks ∷ [] else [])
    ++ map (λ visitor. visit visitor.name visitor.auth) args.visitors

-- Where `run_once` connects, under which crypto, whether its binds have all been sent, which
-- listeners begin then, and its end.
pub record Begun (aead : Aead) : Type 0 where
  pub url : Text
  pub crypto : Option (FrameCrypto aead)
  pub all_bound : Bool
  pub listening : List OpenRequest
  pub end : Endpoint

module _ (aead : Aead) (encode : Text → Text) where
  unfoldable pub run_once : AccessArgs → Begun aead
  unfolding connect_client_data access_connection_id access_crypto access_end listeners
  run_once args =
      let bound = access_end args.providers in
      record {
        url =
            connect_client_data encode args.relay args.node
              (some (access_connection_id args.connection_id args.name));
        crypto = access_crypto aead args.secret;
        all_bound = bound.0;
        listening = if bound.0 then listeners args else [];
        end = bound.1;
      }

  -- It lists, or it runs `run_once` again and again.
  unfoldable pub access_main : AccessArgs → Command (Begun aead)
  unfolding relay_listing run_once
  access_main args = if args.list then prints (relay_listing encode args) else runs (run_once args)
