-- ===== src/Node/Relay.antt =====
-- The state of crates/node-access-3role/src/bin/node-relay.rs, which an access node's data
-- connections share behind a mutex. The `mux` of a provider is the number of its connection's
-- handle.
use node_access.Prelude.{
  ℕ, Bool, true, false, not, Option, none, some, List, [], ◌∷◌, Text, str, text_Eq, ◌==◌,
  if◌then◌else◌,
}
use node_access.HashMap.{HashMap, get, insert, remove, retain}
use node_access.Mux.Frame.{OpenRequest, provider_connect, ControlMessage, bind_ack}
use node_access.Node.Events.{RelayControlEvent, connected, disconnected, sync, pong}
use node_access.Node.Mapping.{auth_matches}

pub record ProviderEndpoint : Type 0 where
  pub connection_id : Text
  pub mux : ℕ
  pub auth : Option Text

-- A `HashSet` is a map to the unit type.
pub record RelayState : Type 0 where
  pub active_connections : HashMap Text (Unit {0})
  pub providers : HashMap Text ProviderEndpoint

abbrev pub new_relay : RelayState
new_relay = record { active_connections = []; providers = [] }

-- What is locked of `start_connection`: whether a task for the connection begins.
unfoldable pub start_connection : Text → RelayState → Bool × RelayState
start_connection connection_id s = elim (get connection_id s.active_connections) [
  | some u ↦ (false, s)
  | none ↦ (true, record s { active_connections = insert connection_id tt s.active_connections })
]

-- The end of that task.
unfoldable pub end_connection : Text → RelayState → RelayState
end_connection connection_id s = record {
  active_connections = remove connection_id s.active_connections;
  providers = retain (λ provider. not (provider.connection_id == connection_id)) s.providers;
}

-- The arms of `run_control`: the connections for which a task begins, in order.
unfoldable pub start_all : List Text → RelayState → List Text × RelayState
unfolding start_connection
start_all [] s = ([], s)
start_all (id ∷ ids) s =
    let r = start_connection id s in
    let rest = start_all ids r.1 in (if r.0 then id ∷ rest.0 else rest.0, rest.1)

unfoldable pub control_event : RelayControlEvent → RelayState → List Text × RelayState
unfolding start_all
control_event (connected connection_id) s = start_all (connection_id ∷ []) s
control_event (sync connection_ids) s = start_all connection_ids s
control_event (disconnected connection_id) s = ([], s)
control_event pong s = ([], s)

unfoldable pub register_provider :
    ℕ → Text → Text → Option Text → RelayState → ControlMessage × RelayState
register_provider mux connection_id name auth s = (
  bind_ack name true none,
  record s {
    providers =
        insert name (record { connection_id = connection_id; mux = mux; auth = auth }) s.providers;
  },
)

unfoldable pub bind_over :
    Option ProviderEndpoint
    → ℕ
    → Text
    → Text
    → Option Text
    → RelayState
    → ControlMessage × RelayState
unfolding register_provider
bind_over none mux connection_id name auth s = register_provider mux connection_id name auth s
bind_over (some existing) mux connection_id name auth s =
    if existing.connection_id == connection_id
    then register_provider mux connection_id name auth s
    else (bind_ack name false (some (str "provider name is already registered")), s)

-- The answer that goes to the binding connection, and the state.
unfoldable pub handle_bind :
    ℕ → Text → Text → Option Text → RelayState → ControlMessage × RelayState
unfolding bind_over
handle_bind mux connection_id name auth s =
    bind_over (get name s.providers) mux connection_id name auth s

-- What a visit comes to: an error, or a stream that is opened on a connection, to be joined with
-- the visitor's.
pub data Visited : Type 0 where
  not_found rejected : Visited
  open_on : ℕ → OpenRequest → Visited

unfoldable pub visit_provider : Text → Option Text → Option ProviderEndpoint → Visited
visit_provider name auth none = not_found
visit_provider name auth (some provider) =
    if auth_matches provider.auth auth
    then open_on provider.mux (provider_connect name)
    else rejected

unfoldable pub handle_visit : Text → Option Text → RelayState → Visited
unfolding visit_provider
handle_visit name auth s = visit_provider name auth (get name s.providers)
