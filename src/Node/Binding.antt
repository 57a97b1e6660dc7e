-- ===== src/Node/Binding.antt =====
-- An access node and a relay node of crates/node-access-3role at the two ends of a data connection:
-- how the services of the one come to be known to the other, and what a visit of one of them comes
-- to.
pub mod Visits
use node_access.Prelude.{
  ℕ, ◌≡◌, refl, sym, ap, ◌∙◌, Bool, Bool-cases, true, false, Option, Option-cases, none, some, inl,
  inr, List, [], ◌∷◌, ◌++◌, map, All, Text, text_Eq, ◌==◌, if◌then◌else◌, arith, append_assoc,
  append-nil, text_eq_iff,
}
use node_access.HashMap.{HashMap, get, insert}
use node_access.HashMap.Laws.{get-insert}
use node_access.Mux.Frame.{
  MuxFrame, control_frame, ControlMessage, bind, bind_ack, provider_connect, OpenRequest,
}
use node_access.Mux.Reader.{Reader, dispatch, dispatch_all}
use node_access.Mux.Endpoint.{Endpoint, start, send, send_control, VirtualStream}
use node_access.Node.Mapping.{TcpMapping, auth_matches}
use node_access.Node.Relay.{
  ProviderEndpoint, RelayState, register_provider, bind_over, handle_bind, open_on, rejected,
  handle_visit, visit_provider,
}
use node_access.Node.Select.{
  takes_message, recv_message, first_message, select_loop, select_loop-goes_on, goes_on,
}
use node_access.Node.Data.{
  Act, DataState, relay_end, take_message, answered, data_branch, run_data_connection,
}
use node_access.Node.Access.{
  send_binds, access_end, target_table, provider_stream, connect_target, connects,
}

-- The last mapping of the name.
unfoldable pub last_named : Text → List TcpMapping → Option TcpMapping
last_named name [] = none
last_named name (m ∷ ms) = elim (last_named name ms) [
  | some last ↦ some last
  | none ↦ if m.name == name then some m else none
]

abbrev pub bind_of : TcpMapping → ControlMessage
bind_of m = bind m.name m.auth

abbrev pub ack_of : TcpMapping → ControlMessage
ack_of m = bind_ack m.name true none

-- The name is free, or the connection's own.
abbrev pub IsOpen : Text → RelayState → Text → Type 0
IsOpen connection_id s name =
    (p : ProviderEndpoint) → get name s.providers ≡ some p → p.connection_id ≡ connection_id

sends-open :
    (f : MuxFrame) (e : Endpoint)
    → e.writer_open ≡ true
    → send f e ≡ (true, record e { outbound = e.outbound ++ f ∷ [] })
unfolding send
sends-open f e w = rw w refl

pub send_binds-open :
    (ps : List TcpMapping) (e : Endpoint)
    → e.writer_open ≡ true
    → send_binds ps e
      ≡ (true, record e { outbound = e.outbound ++ map (λ p. control_frame (bind_of p)) ps })
unfolding send_binds send_control
send_binds-open [] e w =
    ap (λ (o : List MuxFrame). (true, record e { outbound = o })) (sym (append-nil e.outbound))
send_binds-open (p ∷ ps) e w =
    let e' = record e { outbound = e.outbound ++ control_frame (bind_of p) ∷ [] } in
    let frames = map (λ p. control_frame (bind_of p)) ps in
    rw (sends-open (control_frame (bind_of p)) e w) (
      send_binds-open ps e' w
      ∙ ap (λ (o : List MuxFrame). (true, record e { outbound = o }))
          (append_assoc e.outbound (control_frame (bind_of p) ∷ []) frames))

pub dispatch_all-control :
    (ps : List TcpMapping) (r : Reader)
    → dispatch_all (map (λ p. control_frame (bind_of p)) ps) r
      ≡ record r { control = r.control ++ map bind_of ps }
unfolding dispatch_all dispatch
dispatch_all-control [] r =
    ap (λ (c : List ControlMessage). record r { control = c }) (sym (append-nil r.control))
dispatch_all-control (p ∷ ps) r =
    dispatch_all-control ps (record r { control = r.control ++ bind_of p ∷ [] })
    ∙ ap (λ (c : List ControlMessage). record r { control = c })
        (append_assoc r.control (bind_of p ∷ []) (map bind_of ps))

module _ (mux : ℕ) (id : Text) where
  pub register_all : List TcpMapping → RelayState → RelayState
  unfolding register_provider
  register_all [] s = s
  register_all (p ∷ ps) s = register_all ps (register_provider mux id p.name p.auth s).1

  handle_bind-IsOpen :
      (p : TcpMapping) (s : RelayState)
      → IsOpen id s p.name
      → handle_bind mux id p.name p.auth s
        ≡ (ack_of p, (register_provider mux id p.name p.auth s).1)
  unfolding handle_bind bind_over register_provider
  handle_bind-IsOpen p s open_name = elim (Option-cases (get p.name s.providers)) [
    | inl e ↦ rw (e, bind_over) refl
    | inr (q, e) ↦ rw (e, bind_over, (text_eq_iff q.connection_id id).1 (open_name q e)) refl
  ]

  registered_IsOpen :
      (p : TcpMapping) (s : RelayState) (name : Text)
      → IsOpen id s name
      → IsOpen id (register_provider mux id p.name p.auth s).1 name
  unfolding register_provider
  registered_IsOpen p s name h q e =
      let g =
        get-insert p.name name (record { connection_id = id; mux = mux; auth = p.auth })
          s.providers in
      elim (Bool-cases (p.name == name)) [
        | inl y ↦ ground (arith, rw y at g, e)
        | inr y ↦ h q (sym (rw y at g) ∙ e)
      ]

  -- The loop takes a bind.
  takes_bind :
      (p : TcpMapping) (rest : List ControlMessage) (s : RelayState) (e : Endpoint)
      → e.reader.control ≡ bind_of p ∷ rest
      → e.writer_open ≡ true
      → IsOpen id s p.name
      → data_branch mux id takes_message (s, e)
        ≡ goes_on (Act.has_bound (ack_of p)) (
          (register_provider mux id p.name p.auth s).1,
          record e {
            reader = record (e.reader) { control = rest };
            outbound = e.outbound ++ control_frame (ack_of p) ∷ [];
          },
        )
  unfolding data_branch recv_message first_message take_message answered send_control
  takes_bind p rest s e c w o = rw (c, first_message, handle_bind-IsOpen p s o) (rw w refl)

  -- What the loop has done to its end when it has taken some binds.
  pub answered_all : List TcpMapping → Endpoint → Endpoint
  answered_all ps e = record e {
    reader = record (e.reader) { control = [] };
    outbound = e.outbound ++ map (λ p. control_frame (ack_of p)) ps;
  }

  pub takes_binds :
      (ps : List TcpMapping) (s : RelayState) (e : Endpoint)
      → e.reader.control ≡ map bind_of ps
      → e.writer_open ≡ true
      → All (λ p. IsOpen id s p.name) ps
      → run_data_connection mux id (map (λ p. takes_message) ps) (s, e)
        ≡ (map (λ p. Act.has_bound (ack_of p)) ps, (false, (register_all ps s, answered_all ps e)))
  unfolding run_data_connection select_loop register_all answered_all
  takes_binds [] s e c w o =
      ap
        (λ (x : List ControlMessage × List MuxFrame). (
          [],
          (false, (s, record e { reader = record (e.reader) { control = x.0 }; outbound = x.1 })),
        ))
        (let n = append-nil e.outbound in rw (c, n) refl)
  takes_binds (p ∷ ps) s e c w (o, os) =
      let s' = (register_provider mux id p.name p.auth s).1 in
      let e' : Endpoint = record e {
        reader = record (e.reader) { control = map bind_of ps };
        outbound = e.outbound ++ control_frame (ack_of p) ∷ [];
      } in
      let rest = takes_binds ps s' e' refl w (still ps os) in
      select_loop-goes_on (data_branch mux id) takes_message _ (s, e) (s', e')
        (Act.has_bound (ack_of p)) (takes_bind p (map bind_of ps) s e c w o)
      ∙ ap (λ (r : List Act × (Bool × DataState)). (Act.has_bound (ack_of p) ∷ r.0, r.1)) rest
      ∙ ap
          (λ (o : List MuxFrame). (
            Act.has_bound (ack_of p) ∷ map (λ p. Act.has_bound (ack_of p)) ps,
            (
              false,
              (
                register_all ps s',
                record e { reader = record (e.reader) { control = [] }; outbound = o },
              ),
            ),
          ))
          (append_assoc e.outbound (control_frame (ack_of p) ∷ [])
            (map (λ p. control_frame (ack_of p)) ps))
    where
      still :
          (qs : List TcpMapping)
          → All (λ q. IsOpen id s q.name) qs
          → All (λ q. IsOpen id (register_provider mux id p.name p.auth s).1 q.name) qs
      still [] h = tt
      still (q ∷ qs) (h, hs) = (registered_IsOpen p s q.name h, still qs hs)

  -- What is kept for a name: the connection, if one of its mappings is the last of the name.
  unfoldable pub bound_to : Option TcpMapping → Option ProviderEndpoint → Option ProviderEndpoint
  bound_to none before = before
  bound_to (some p) before = some (record { connection_id = id; mux = mux; auth = p.auth })

  pub get-register_all :
      (ps : List TcpMapping) (s : RelayState) (name : Text)
      → get name (register_all ps s).providers
        ≡ bound_to (last_named name ps) (get name s.providers)
  unfolding register_all last_named register_provider bound_to
  get-register_all [] s name = refl
  get-register_all (p ∷ ps) s name =
      let s' = (register_provider mux id p.name p.auth s).1 in
      let g =
        get-insert p.name name (record { connection_id = id; mux = mux; auth = p.auth })
          s.providers in
      elim (Option-cases (last_named name ps)) [
        | inl e ↦ elim (Bool-cases (p.name == name)) [
          | inl y ↦ rw (e, y) (rw (e, bound_to) at (get-register_all ps s' name) ∙ rw y at g)
          | inr y ↦ rw (e, y) (rw (e, bound_to) at (get-register_all ps s' name) ∙ rw y at g)
        ]
        | inr (q, e) ↦ rw (e, bound_to) (rw (e, bound_to) at (get-register_all ps s' name))
      ]
