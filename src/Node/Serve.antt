-- ===== src/Node/Serve.antt =====
-- The serving half of crates/node-access-2role/src/bin/node-access.rs, with its own copies of what
-- the relay node does, and services of its own; and the visiting half's answer to a provider
-- stream.
use node_access.Prelude.{
  eq_self, All, ◌≢◌, ℕ, ◌≡◌, refl, Bool, true, false, not, Option, none, some, List, [], ◌∷◌, ◌++◌,
  Text, str, text_Eq, ◌==◌, if◌then◌else◌, Option-cases, Bool-cases, inl, inr, arith,
}
use node_access.HashMap.{HashMap, get, insert, remove, retain}
use node_access.HashMap.Laws.{get-insert}
use node_access.Mux.Frame.{OpenRequest, visit, provider_connect, ControlMessage, bind, bind_ack}
use node_access.Node.Mapping.{TcpMapping, VisitorMapping, auth_matches}
use node_access.Node.Relay.{
  ProviderEndpoint, RelayState, start_connection, end_connection, handle_bind, bind_over,
  register_provider, Visited, not_found, rejected, open_on, handle_visit, visit_provider,
}

pub record ServeState : Type 0 where
  pub active_connections : HashMap Text (Unit {0})
  pub local_providers : HashMap Text TcpMapping
  pub providers : HashMap Text ProviderEndpoint

-- The services of the command line; a later one of the same name takes the place of an earlier one.
unfoldable pub by_name : List TcpMapping → HashMap Text TcpMapping → HashMap Text TcpMapping
by_name [] m = m
by_name (provider ∷ providers) m = by_name providers (insert provider.name provider m)

unfoldable pub new_serve : List TcpMapping → ServeState
unfolding by_name
new_serve providers = record {
  active_connections = [];
  local_providers = by_name providers [];
  providers = [];
}

unfoldable pub start_served_connection : Text → ServeState → Bool × ServeState
start_served_connection connection_id s = elim (get connection_id s.active_connections) [
  | some u ↦ (false, s)
  | none ↦ (true, record s { active_connections = insert connection_id tt s.active_connections })
]

unfoldable pub end_served_connection : Text → ServeState → ServeState
end_served_connection connection_id s = record s {
  active_connections = remove connection_id s.active_connections;
  providers = retain (λ provider. not (provider.connection_id == connection_id)) s.providers;
}

serve_provider : ℕ → Text → Text → Option Text → ServeState → ControlMessage × ServeState
serve_provider mux connection_id name auth s = (
  bind_ack name true none,
  record s {
    providers =
        insert name (record { connection_id = connection_id; mux = mux; auth = auth }) s.providers;
  },
)

serve_over :
    Option ProviderEndpoint
    → ℕ
    → Text
    → Text
    → Option Text
    → ServeState
    → ControlMessage × ServeState
unfolding serve_provider
serve_over none mux connection_id name auth s = serve_provider mux connection_id name auth s
serve_over (some existing) mux connection_id name auth s =
    if existing.connection_id == connection_id
    then serve_provider mux connection_id name auth s
    else (bind_ack name false (some (str "provider name is already registered")), s)

unfoldable pub serve_bind : ℕ → Text → Text → Option Text → ServeState → ControlMessage × ServeState
unfolding serve_over
serve_bind mux connection_id name auth s =
    serve_over (get name s.providers) mux connection_id name auth s

-- What a visit comes to here: a connection to an address, or what it comes to on the relay node.
pub data Served : Type 0 where
  dial : Text → Served
  refused : Served
  remote : Visited → Served

-- `else` is the rest of the handler.
visit_local : Option Text → Option TcpMapping → Served → Served
visit_local auth none otherwise = otherwise
visit_local auth (some mapping) otherwise =
    if auth_matches mapping.auth auth then dial mapping.addr else refused

visit_remote : Text → Option Text → Option ProviderEndpoint → Visited
visit_remote name auth none = not_found
visit_remote name auth (some provider) =
    if auth_matches provider.auth auth
    then open_on provider.mux (provider_connect name)
    else rejected

unfoldable pub serve_visit : Text → Option Text → ServeState → Served
unfolding visit_local visit_remote
serve_visit name auth s =
    visit_local auth (get name s.local_providers)
      (remote (visit_remote name auth (get name s.providers)))

-- What the two nodes have in common.
abbrev pub shared : ServeState → RelayState
shared s = record { active_connections = s.active_connections; providers = s.providers }

abbrev pub Same : {A : Type 0} → A × ServeState → A × RelayState → ServeState → Type 0
Same r q s = (r.0 ≡ q.0) × (shared r.1 ≡ q.1) × (r.1.local_providers ≡ s.local_providers)

pub shared-start :
    (id : Text) (s : ServeState)
    → Same (start_served_connection id s) (start_connection id (shared s)) s
unfolding start_served_connection start_connection
shared-start id s = elim (Option-cases (get id s.active_connections)) [
  | inl e ↦ rw (start_served_connection, start_connection, e) (refl, refl, refl)
  | inr (u, e) ↦ rw (start_served_connection, start_connection, e) (refl, refl, refl)
]

shared-over :
    (o : Option ProviderEndpoint) (mux : ℕ) (id name : Text) (auth : Option Text) (s : ServeState)
    → Same (serve_over o mux id name auth s) (bind_over o mux id name auth (shared s)) s
unfolding serve_over serve_provider bind_over register_provider
shared-over none mux id name auth s = (refl, refl, refl)
shared-over (some existing) mux id name auth s = elim (Bool-cases (existing.connection_id == id)) [
  | inl y ↦ rw y (refl, refl, refl)
  | inr y ↦ rw y (refl, refl, refl)
]

visit_remote_lem :
    (name : Text) (auth : Option Text) (o : Option ProviderEndpoint)
    → visit_remote name auth o ≡ visit_provider name auth o
unfolding visit_remote visit_provider
visit_remote_lem name auth none = refl
visit_remote_lem name auth (some provider) = refl

-- The two-role node does what the relay node does: beginning and ending a connection's task and
-- binding a service answer the same and do the same to what the two states have in common, and
-- leave the local services alone; and a visit is one of the relay node, but that a local service of
-- the name comes first, which is dialled exactly if its auth matches.
pub serve_refines_relay :
    (mux : ℕ) (id name : Text) (auth : Option Text) (s : ServeState)
    → Same (start_served_connection id s) (start_connection id (shared s)) s
      × (shared (end_served_connection id s) ≡ end_connection id (shared s))
      × Same (serve_bind mux id name auth s) (handle_bind mux id name auth (shared s)) s
      × (get name s.local_providers ≡ none
          → serve_visit name auth s ≡ remote (handle_visit name auth (shared s)))
      × ((mapping : TcpMapping)
          → get name s.local_providers ≡ some mapping
          → serve_visit name auth s
            ≡ (if auth_matches mapping.auth auth then dial mapping.addr else refused))
unfolding end_served_connection end_connection serve_bind handle_bind serve_visit handle_visit
    visit_local
serve_refines_relay mux id name auth s = (
  shared-start id s,
  refl,
  shared-over (get name s.providers) mux id name auth s,
  λ e. rw (e, visit_remote_lem name auth (get name s.providers)),
  λ mapping e. rw e,
)

-- What the visiting half does with a stream that the node it visits opens: the address to dial, if
-- a service of the name is configured. A later service of the name takes the place of an earlier
-- one.
unfoldable pub addresses : List TcpMapping → HashMap Text Text → HashMap Text Text
addresses [] m = m
addresses (mapping ∷ mappings) m = addresses mappings (insert mapping.name mapping.addr m)

unfoldable pub incoming_stream : List TcpMapping → OpenRequest → Option Text
unfolding addresses
incoming_stream providers (provider_connect name) = get name (addresses providers [])
incoming_stream providers _ = none

-- The binds that it sends first.
unfoldable pub binds : List TcpMapping → List ControlMessage
binds [] = []
binds (provider ∷ providers) = bind provider.name provider.auth ∷ binds providers

-- The id that it connects under.
unfoldable pub visitor_connection_id : Option Text → Text → Text → Text
visitor_connection_id (some id) name node = id
visitor_connection_id none name node = str "access-" ++ name ++ str "-to-" ++ node

-- The request that its listener makes for each client.
unfoldable pub visit_request : VisitorMapping → OpenRequest
visit_request visitor = visit visitor.service visitor.auth

addresses-keeps :
    (k : Text) (ms : List TcpMapping) (m : HashMap Text Text)
    → get k m ≢ none
    → get k (addresses ms m) ≢ none
unfolding addresses
addresses-keeps k [] m h = h
addresses-keeps k (x ∷ ms) m h =
    addresses-keeps k ms (insert x.name x.addr m) (ground (arith, get-insert x.name k x.addr m, h))

-- A bind of a service that can be dialled.
abbrev pub Dialled : List TcpMapping → ControlMessage → Type 0
Dialled providers (bind name auth) = incoming_stream providers (provider_connect name) ≢ none
Dialled providers _ = ⊥

Named : HashMap Text Text → ControlMessage → Type 0
Named m (bind name auth) = get name m ≢ none
Named m _ = ⊥

binds-Named :
    (ps : List TcpMapping) (m : HashMap Text Text) → All (Named (addresses ps m)) (binds ps)
unfolding binds addresses Named
binds-Named [] m = tt
binds-Named (p ∷ ps) m = (
  addresses-keeps p.name ps (insert p.name p.addr m)
      (ground (arith, get-insert p.name p.name p.addr m, eq_self p.name)),
  binds-Named ps (insert p.name p.addr m),
)

Named-Dialled :
    (all ps : List TcpMapping)
    → All (Named (addresses all [])) (binds ps)
    → All (Dialled all) (binds ps)
unfolding binds Named incoming_stream
Named-Dialled all [] h = tt
Named-Dialled all (p ∷ ps) (h, hs) = (h, Named-Dialled all ps hs)

-- Each service that a visiting node binds is one that it can dial when the other node opens a
-- stream to it: its table has an address for the name.
pub binds-Dialled : (providers : List TcpMapping) → All (Dialled providers) (binds providers)
binds-Dialled providers = Named-Dialled providers providers (binds-Named providers [])
