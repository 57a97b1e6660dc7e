-- ===== src/Node/Process/Reaches.antt =====
-- A visitor of crates/node-access-2role/src/bin/node-access.rs, from its listener to the service on
-- the node that it visits.
use node_access.Node.Select.{first_stream}
use node_access.Node.Select.{recv_stream}
use node_access.Node.Select.{select_loop}
use node_access.Mux.Reader.{IncomingStream}
use node_access.Node.Serve.{serve_refines_relay}
use node_access.Node.Events.{disconnected}
use node_access.Node.Events.{sync}
use node_access.Node.Serve.{shared-start}
use node_access.Node.Control.{start_all_served}
use node_access.Node.Events.{connected}
use node_access.Prelude.{
  ℕ, ◌≡◌, refl, ap, ◌∙◌, Bool-cases, true, Option, Option-cases, none, some, inl, inr, List, [],
  ◌∷◌, map, Text, text_Eq, ◌==◌, if◌then◌else◌,
}
use node_access.HashMap.{HashMap, get, insert}
use node_access.HashMap.Laws.{get-insert}
use node_access.Mux.Frame.{open_frame, control_frame}
use node_access.Mux.Reader.{dispatch}
use node_access.Mux.Endpoint.{
  Endpoint, VirtualStream, start, send, open_stream, new_stream, into_stream,
}
use node_access.Mux.Carried.{dispatch_all-append}
use node_access.Node.Mapping.{TcpMapping, VisitorMapping, auth_matches}
use node_access.Node.Serve.{
  ServeState, by_name, new_serve, serve_bind, start_served_connection, end_served_connection,
  serve_visit, dial, refused, visit_request,
}
use node_access.Node.Events.{RelayControlEvent, pong}
use node_access.Node.Control.{served_event}
use node_access.Node.Select.{takes_stream}
use node_access.Node.Data.{visits}
use node_access.Node.Access.{accept_loop}
use node_access.Node.Served.{served_end, run_served_data_connection, served_branch, served_stream}
use node_access.Node.Binding.{last_named, bind_of, send_binds-open, dispatch_all-control}
use node_access.Node.Binding.Visits.{told_by}
use node_access.Node.Process.TwoRole.{
  RuntimeConfig, run_forever, visitor_end, spawn_visitor_listener,
}

-- The states that a serving node comes to: from its start, by the events of its control channel, by
-- the binds of its connections and by their ends.
pub data Serving (config : RuntimeConfig) : ServeState → Type 0 where
  begins : Serving config (run_forever config).state
  told :
      (event : RelayControlEvent) {s : ServeState}
      → Serving config s
      → Serving config (served_event event s).1
  bound :
      (mux : ℕ) (id name : Text) (auth : Option Text) {s : ServeState}
      → Serving config s
      → Serving config (serve_bind mux id name auth s).1
  ended :
      (id : Text) {s : ServeState} → Serving config s → Serving config (end_served_connection id s)

latest : Option TcpMapping → Option TcpMapping → Option TcpMapping
latest none before = before
latest (some p) before = some p

get-by_name :
    (ps : List TcpMapping) (m : HashMap Text TcpMapping) (name : Text)
    → get name (by_name ps m) ≡ latest (last_named name ps) (get name m)
unfolding by_name last_named latest
get-by_name [] m name = refl
get-by_name (p ∷ ps) m name =
    let rest = get-by_name ps (insert p.name p m) name in
    let g = get-insert p.name name p m in
    elim (Option-cases (last_named name ps)) [
      | inl e ↦ elim (Bool-cases (p.name == name)) [
        | inl y ↦ rw (e, y) (rw (e, latest) at rest ∙ rw y at g)
        | inr y ↦ rw (e, y) (rw (e, latest) at rest ∙ rw y at g)
      ]
      | inr (q, e) ↦ rw (e, latest) (rw (e, latest) at rest)
    ]

start_all-local :
    (ids : List Text) (s : ServeState)
    → (start_all_served ids s).1.local_providers ≡ s.local_providers
unfolding start_all_served
start_all-local [] s = refl
start_all-local (id ∷ ids) s =
    start_all-local ids (start_served_connection id s).1 ∙ (shared-start id s).2

-- Nothing changes the local services.
Serving-local :
    (config : RuntimeConfig) {s : ServeState}
    → Serving config s
    → s.local_providers ≡ by_name config.providers []
unfolding run_forever new_serve served_event end_served_connection
Serving-local config begins = refl
Serving-local config (told (connected id) {s} r) =
    start_all-local (id ∷ []) s ∙ Serving-local config r
Serving-local config (told (sync ids) {s} r) = start_all-local ids s ∙ Serving-local config r
Serving-local config (told (disconnected id) r) = Serving-local config r
Serving-local config (told pong r) = Serving-local config r
Serving-local config (bound mux id name auth {s} r) =
    ((serve_refines_relay mux id name auth s).2.2) ∙ Serving-local config r
Serving-local config (ended id r) = Serving-local config r

-- The visitor's end, once its listener has taken a client.
visiting_end : RuntimeConfig → VisitorMapping → List VirtualStream × Endpoint
unfolding spawn_visitor_listener visitor_end
visiting_end visiting visitor =
    spawn_visitor_listener visitor true (true ∷ []) (visitor_end visiting).1

-- Its stream as the serving end has it.
abbrev pub arrived : VisitorMapping → IncomingStream
arrived visitor = record { request = visit_request visitor; stream_id = 1; inbound = 0 }

visiting_end-heard :
    (visiting : RuntimeConfig) (visitor : VisitorMapping)
    → let near = visiting_end visiting visitor in
      (near.0 ≡ new_stream 1 0 ∷ [])
      × ((told_by near.1 served_end).reader.incoming ≡ arrived visitor ∷ [])
unfolding visiting_end spawn_visitor_listener visitor_end accept_loop open_stream send start
    served_end new_stream dispatch
visiting_end-heard visiting visitor =
    let frames = map (λ p. control_frame (bind_of p)) visiting.providers in
    let reader = served_end.reader in
    rw (send_binds-open visiting.providers (start 1) refl) (
      refl,
      rw
          (
            dispatch_all-append frames (open_frame 1 (visit_request visitor)) reader,
            dispatch_all-control visiting.providers reader,
          )
          refl,
    )

-- The serving end takes the first stream that has come.
takes_visit :
    (mux : ℕ) (id : Text) (s : ServeState) (e : Endpoint) (visitor : VisitorMapping)
    → e.reader.incoming ≡ arrived visitor ∷ []
    → let r = run_served_data_connection mux id (takes_stream ∷ []) (s, e) in
      (r.0 ≡ visits visitor.service visitor.auth (new_stream 1 0) ∷ []) × (r.1.1.0 ≡ s)
unfolding run_served_data_connection select_loop served_branch recv_stream first_stream
    served_stream into_stream visit_request
takes_visit mux id s e visitor h = rw h (refl, refl)

-- A visitor of one node reaches the service of another, whatever has happened on the other's
-- control channel and connections before: for a client that its listener takes, a stream is opened
-- on its end; once what that end has sent has arrived, the serving end takes a stream that visits
-- the service with the visitor's auth; and the visit comes to a connection to the address of the
-- last of the serving node's services of the name, exactly where the auths match, and is refused
-- otherwise.
pub visitor_reaches_service :
    (config visiting : RuntimeConfig) (s : ServeState) (visitor : VisitorMapping) (p : TcpMapping)
    (mux : ℕ) (id : Text)
    → Serving config s
    → last_named visitor.service config.providers ≡ some p
    → let near = spawn_visitor_listener visitor true (true ∷ []) (visitor_end visiting).1 in
      let r =
        run_served_data_connection mux id (takes_stream ∷ []) (s, told_by near.1 served_end) in
      (near.0 ≡ new_stream 1 0 ∷ [])
      × (r.0 ≡ visits visitor.service visitor.auth (new_stream 1 0) ∷ [])
      × (serve_visit visitor.service visitor.auth r.1.1.0
          ≡ (if auth_matches p.auth visitor.auth then dial p.addr else refused))
unfolding visiting_end get latest
visitor_reaches_service config visiting s visitor p mux id serving last =
    let (opened, heard) = visiting_end-heard visiting visitor in
    let (taken, same) =
      takes_visit mux id s (told_by (visiting_end visiting visitor).1 served_end) visitor heard in
    let local : get visitor.service s.local_providers ≡ some p =
      ap (λ (m : HashMap Text TcpMapping). get visitor.service m) (Serving-local config serving)
      ∙ get-by_name config.providers [] visitor.service
      ∙ ap (λ (o : Option TcpMapping). latest o none) last in
    let dialled = (serve_refines_relay mux id visitor.service visitor.auth s).4 p local in
    (
      opened,
      taken,
      ap (λ (s : ServeState). serve_visit visitor.service visitor.auth s) same ∙ dialled,
    )
