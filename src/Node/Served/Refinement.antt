-- ===== src/Node/Served/Refinement.antt =====
-- The loops of crates/node-access-2role/src/bin/node-access.rs over data connections beside those
-- of crates/node-access-3role.
use node_access.Prelude.{
  ℕ, ◌≡◌, refl, sym, ap, ◌∙◌, Bool, Bool-cases, Option-cases, inl, inr, List, [], ◌∷◌, Text,
  text_Eq,
}
use node_access.HashMap.{HashMap, get, insert}
use node_access.Mux.Frame.{
  OpenRequest, socks, visit, provider_connect, ControlMessage, bind, bind_ack, info,
}
use node_access.Mux.Endpoint.{Endpoint, VirtualStream, into_stream}
use node_access.Node.Mapping.{TcpMapping}
use node_access.Node.Relay.{RelayState, handle_bind}
use node_access.Node.Serve.{ServeState, shared, serve_refines_relay, serve_bind, addresses}
use node_access.Node.Select.{
  Branch, takes_stream, takes_message, sees_closed, Turn, waits, breaks, goes_on, recv_stream,
  recv_message, select_loop,
}
use node_access.Node.Data.{
  DataState, stream_act, take_message, answered, data_branch, run_data_connection,
}
use node_access.Node.Access.{
  access_message, connect_target, provider_stream, target_table, access_branch, run_access,
}
use node_access.Node.Served.{
  ServedState, run_remote_visitor, run_served_data_connection, served_branch, served_message,
  served_stream, visitor_branch, visitor_message, visitor_stream, visitor_target,
}

-- The turn of one state for that of another.
unfoldable pub turn_map : {A S T : Type 0} → (S → T) → Turn A S → Turn A T
turn_map f waits = waits
turn_map f breaks = breaks
turn_map f (goes_on a s) = goes_on a (f s)

-- Loops whose bodies go with a map of the states go with it.
select_loop-map :
    {A S T : Type 0} (f : S → T) (body : Branch → S → Turn A S) (body' : Branch → T → Turn A T)
    → ((branch : Branch) (s : S) → turn_map f (body branch s) ≡ body' branch (f s))
    → (branches : List Branch) (s : S)
    → let r = select_loop body branches s in
      (r.0, (r.1.0, f r.1.1)) ≡ select_loop body' branches (f s)
unfolding select_loop turn_map
select_loop-map f body body' same [] s = refl
select_loop-map {A} {S} {T} f body body' same (branch ∷ branches) s =
    turn (body branch s) (select_loop-map f body body' same branches) refl
  where
    turn :
        (t : Turn A S)
        → ((s : S)
            → let r = select_loop body branches s in
              (r.0, (r.1.0, f r.1.1)) ≡ select_loop body' branches (f s))
        → body branch s ≡ t
        → let r = select_loop body (branch ∷ branches) s in
          (r.0, (r.1.0, f r.1.1)) ≡ select_loop body' (branch ∷ branches) (f s)
    turn waits go e =
        let e' = sym (same branch s) ∙ ap (turn_map f) e in rw (select_loop, e, e') (go s)
    turn breaks go e =
        let e' = sym (same branch s) ∙ ap (turn_map f) e in rw (select_loop, e, e') refl
    turn (goes_on a t) go e =
        let e' = sym (same branch s) ∙ ap (turn_map f) e in
        rw (select_loop, e, e') (ap (λ (r : List A × (Bool × T)). (a ∷ r.0, r.1)) (go t))

-- What the two nodes' loops have in common.
abbrev pub common : ServedState → DataState
common s = (shared s.0, s.1)

served_message-common :
    (mux : ℕ) (id : Text) (message : ControlMessage) (s : ServeState) (e : Endpoint)
    → turn_map common (served_message mux id message (s, e))
      ≡ take_message mux id message (shared s, e)
unfolding served_message turn_map take_message answered
served_message-common mux id (bind name auth) s e =
    let (same, state, kept) = (serve_refines_relay mux id name auth s).2 in
    let served = serve_bind mux id name auth s in
    let bound = handle_bind mux id name auth (shared s) in
    ap (λ (m : ControlMessage). answered (m, shared served.1) e) same
    ∙ ap (λ (t : RelayState). answered (bound.0, t) e) state
served_message-common mux id (bind_ack name ok error) s e = refl
served_message-common mux id (info message) s e = refl

served_stream_lem :
    (request : OpenRequest) (stream : VirtualStream) (e : Endpoint)
    → served_stream request stream e ≡ stream_act request stream e
unfolding served_stream stream_act
served_stream_lem socks stream e = refl
served_stream_lem (visit name auth) stream e = refl
served_stream_lem (provider_connect name) stream e = refl

visitor_stream_lem :
    (targets : HashMap Text Text) (request : OpenRequest) (stream : VirtualStream) (e : Endpoint)
    → visitor_stream targets request stream e ≡ provider_stream targets request stream e
unfolding visitor_stream provider_stream visitor_target connect_target
visitor_stream_lem targets socks stream e = refl
visitor_stream_lem targets (visit name auth) stream e = refl
visitor_stream_lem targets (provider_connect name) stream e =
    elim (Option-cases (get name targets)) [
      | inl y ↦ rw (y, visitor_target, connect_target) refl
      | inr (target, y) ↦ rw (y, visitor_target, connect_target) refl
    ]

served_branch-common :
    (mux : ℕ) (id : Text) (branch : Branch) (s : ServedState)
    → turn_map common (served_branch mux id branch s) ≡ data_branch mux id branch (common s)
unfolding served_branch data_branch turn_map
served_branch-common mux id takes_stream (s, e) = elim (Option-cases (recv_stream e)) [
  | inl y ↦ rw (served_branch, data_branch, y) refl
  | inr ((stream, rest), y) ↦
      rw (served_branch, data_branch, y, served_stream_lem stream.request (into_stream stream) rest)
        refl
]
served_branch-common mux id takes_message (s, e) = elim (Option-cases (recv_message e)) [
  | inl y ↦ rw (served_branch, data_branch, y) refl
  | inr ((message, rest), y) ↦
      rw (served_branch, data_branch, y) (served_message-common mux id message s rest)
]
served_branch-common mux id sees_closed (s, e) = elim (Bool-cases e.reader.closed) [
  | inl y ↦ rw y refl
  | inr y ↦ rw y refl
]

-- The loop of the two-role node over a data connection that it serves does what the relay node's
-- does, whatever branches are picked: the same acts in the same order, it ends where the other
-- does, and its end of the connection and what its state has in common with the relay node's come
-- to the same.
pub served_loop_refines_relay :
    (mux : ℕ) (id : Text) (branches : List Branch) (s : ServedState)
    → let r = run_served_data_connection mux id branches s in
      (r.0, (r.1.0, common r.1.1)) ≡ run_data_connection mux id branches (common s)
unfolding run_served_data_connection run_data_connection
served_loop_refines_relay mux id branches s =
    select_loop-map common (served_branch mux id) (data_branch mux id) (served_branch-common mux id)
      branches s

addresses_lem : (ps : List TcpMapping) (m : HashMap Text Text) → addresses ps m ≡ target_table ps m
unfolding addresses target_table
addresses_lem [] m = refl
addresses_lem (p ∷ ps) m = addresses_lem ps (insert p.name p.addr m)

visitor_message_lem : (message : ControlMessage) → visitor_message message ≡ access_message message
unfolding visitor_message access_message
visitor_message_lem (bind_ack name ok error) = refl
visitor_message_lem (info message) = refl
visitor_message_lem (bind name auth) = refl

visitor_branch_lem :
    (targets : HashMap Text Text) (branch : Branch) (e : Endpoint)
    → turn_map (λ e. e) (visitor_branch targets branch e) ≡ access_branch targets branch e
unfolding visitor_branch access_branch turn_map
visitor_branch_lem targets takes_stream e = elim (Option-cases (recv_stream e)) [
  | inl y ↦ rw (visitor_branch, access_branch, y) refl
  | inr ((stream, rest), y) ↦
      rw
        (
          visitor_branch,
          access_branch,
          y,
          visitor_stream_lem targets stream.request (into_stream stream) rest,
        )
        refl
]
visitor_branch_lem targets takes_message e = elim (Option-cases (recv_message e)) [
  | inl y ↦ rw (visitor_branch, access_branch, y) refl
  | inr ((message, rest), y) ↦
      rw (visitor_branch, access_branch, y, visitor_message_lem message) refl
]
visitor_branch_lem targets sees_closed e = elim (Bool-cases e.reader.closed) [
  | inl y ↦ rw y refl
  | inr y ↦ rw y refl
]

-- The visiting half of the two-role node treats what comes on its connection as the access node
-- does, with the same services: the same acts in the same order, whatever branches are picked, and
-- it ends where the other does.
pub visitor_loop_is_access :
    (providers : List TcpMapping) (branches : List Branch) (e : Endpoint)
    → run_remote_visitor providers branches e ≡ run_access providers branches e
unfolding run_remote_visitor run_access
visitor_loop_is_access providers branches e = rw (addresses_lem providers []) (
    select_loop-map (λ e. e) (visitor_branch (target_table providers []))
      (access_branch (target_table providers [])) (visitor_branch_lem (target_table providers []))
      branches e)
