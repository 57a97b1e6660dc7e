-- ===== src/Node/Binding/Visits.antt =====
-- What has come of the binds of an access node of crates/node-access-3role, and of the visits of
-- its services.
use node_access.Prelude.{
  ℕ, ◌≡◌, refl, ap, ◌∙◌, Bool, Bool-cases, true, false, Option, Option-cases, none, some, inl, inr,
  List, [], ◌∷◌, map, All, Text, text_Eq, ◌==◌, ◌⊎◌,
}
use node_access.HashMap.{HashMap, get, insert}
use node_access.HashMap.Laws.{get-insert}
use node_access.Mux.Frame.{control_frame, provider_connect, OpenRequest}
use node_access.Mux.Reader.{Reader, dispatch_all}
use node_access.Mux.Endpoint.{Endpoint, start, VirtualStream}
use node_access.Node.Mapping.{TcpMapping, auth_matches, auth_matches_iff}
use node_access.Node.Relay.{
  RelayState, ProviderEndpoint, open_on, rejected, handle_visit, visit_provider,
}
use node_access.Node.Select.{takes_message}
use node_access.Node.Data.{Act, DataState, relay_end, run_data_connection}
use node_access.Node.Access.{access_end, target_table, provider_stream, connect_target, connects}
use node_access.Node.Binding.{
  IsOpen, ack_of, answered_all, bind_of, bound_to, dispatch_all-control, get-register_all,
  last_named, register_all, send_binds-open, takes_binds,
}

unfoldable addressed : Option TcpMapping → Option Text → Option Text
addressed none before = before
addressed (some p) before = some p.addr

get-target_table :
    (ps : List TcpMapping) (m : HashMap Text Text) (name : Text)
    → get name (target_table ps m) ≡ addressed (last_named name ps) (get name m)
unfolding target_table last_named addressed
get-target_table [] m name = refl
get-target_table (p ∷ ps) m name =
    let rest = get-target_table ps (insert p.name p.addr m) name in
    let g = get-insert p.name name p.addr m in
    elim (Option-cases (last_named name ps)) [
      | inl e ↦ elim (Bool-cases (p.name == name)) [
        | inl y ↦ rw (e, y) (rw (e, addressed) at rest ∙ rw y at g)
        | inr y ↦ rw (e, y) (rw (e, addressed) at rest ∙ rw y at g)
      ]
      | inr (q, e) ↦ rw (e, addressed) (rw (e, addressed) at rest)
    ]

-- The relay's end once all that an access node's end has sent so far has arrived.
abbrev pub told_by : Endpoint → Endpoint → Endpoint
told_by near far = record far { reader = dispatch_all near.outbound far.reader }

-- What has come of the binds of an access node.
abbrev pub after_binds : ℕ → Text → List TcpMapping → RelayState → List Act × (Bool × DataState)
after_binds mux id providers s =
    run_data_connection mux id (map (λ p. takes_message) providers)
      (s, told_by (access_end providers).1 relay_end)

after_binds_lem :
    (mux : ℕ) (id : Text) (providers : List TcpMapping) (s : RelayState)
    → All (λ p. IsOpen id s p.name) providers
    → ((access_end providers).0 ≡ true)
      × (after_binds mux id providers s ≡ (
        map (λ p. Act.has_bound (ack_of p)) providers,
        (
          false,
          (
            register_all mux id providers s,
            answered_all mux id providers (told_by (access_end providers).1 relay_end),
          ),
        ),
      ))
unfolding access_end relay_end start
after_binds_lem mux id providers s o =
    let sent = send_binds-open providers (start 1) refl in
    let far = told_by (access_end providers).1 relay_end in
    let heard : far.reader ≡ record (relay_end.reader) { control = map bind_of providers } =
      ap (λ (x : Bool × Endpoint). dispatch_all x.1.outbound relay_end.reader) sent
      ∙ dispatch_all-control providers relay_end.reader in
    (
      ap (λ (x : Bool × Endpoint). x.0) sent,
      takes_binds mux id providers s far (ap (λ (r : Reader). r.control) heard) refl o,
    )

-- An access node's binds all go out, and when the relay node's loop has taken as many messages as
-- it has services, where each name is free or the connection's own, each has been answered with a
-- positive acknowledgement, in order, and a name is that connection's, with the auth of the last
-- service of the name, if the access node has one, and what it was before if not.
pub access_binds_registered :
    (mux : ℕ) (id : Text) (providers : List TcpMapping) (s : RelayState)
    → All (λ p. IsOpen id s p.name) providers
    → let r = after_binds mux id providers s in
      ((access_end providers).0 ≡ true)
      × (r.1.1.1.outbound ≡ map (λ p. control_frame (ack_of p)) providers)
      × ((name : Text)
          → get name r.1.1.0.providers
            ≡ bound_to mux id (last_named name providers) (get name s.providers))
unfolding access_end relay_end start answered_all
access_binds_registered mux id providers s o =
    let (all, e) = after_binds_lem mux id providers s o in
    (
      all,
      ap (λ (r : List Act × (Bool × DataState)). r.1.1.1.outbound) e,
      λ name.
          ap (λ (r : List Act × (Bool × DataState)). get name r.1.1.0.providers) e
          ∙ get-register_all mux id providers s name,
    )

-- The auths that a service takes: all, where it has none or an empty one, or its own alone.
abbrev pub Takes : Option Text → Option Text → Type 0
Takes allowed presented = (allowed ≡ none) ⊎ ((allowed ≡ some []) ⊎ (presented ≡ allowed))

visit_by_auth :
    (name : Text) (auth : Option Text) (provider : ProviderEndpoint)
    → ((Takes provider.auth auth)
        × (visit_provider name auth (some provider) ≡ open_on provider.mux (provider_connect name)))
      ⊎ ((¬ (Takes provider.auth auth)) × (visit_provider name auth (some provider) ≡ rejected))
unfolding visit_provider
visit_by_auth name auth provider = elim (Bool-cases (auth_matches provider.auth auth)) [
  | inl y ↦ inl ((auth_matches_iff provider.auth auth).0 y, rw y refl)
  | inr y ↦
      let refuses : ¬ (Takes provider.auth auth) =
        λ takes. cc (y, (auth_matches_iff provider.auth auth).1 takes) in
      inr (refuses, rw y refl)
]

-- Once an access node's services are bound like that, a visit of a name whose last mapping is `p`
-- leads to a stream that is opened on its connection, where `p` has no auth or an empty one or the
-- visit has the auth of `p`, and is rejected where neither holds; and the access node connects a
-- stream with that request to the address of the same mapping.
pub visit_reaches_provider :
    (mux : ℕ) (id : Text) (providers : List TcpMapping) (s : RelayState) (name : Text)
    (auth : Option Text) (p : TcpMapping) (request : OpenRequest) (stream : VirtualStream)
    (e : Endpoint)
    → All (λ p. IsOpen id s p.name) providers
    → last_named name providers ≡ some p
    → request ≡ provider_connect name
    → let visited = handle_visit name auth (after_binds mux id providers s).1.1.0 in
      ((Takes p.auth auth × (visited ≡ open_on mux (provider_connect name)))
        ⊎ ((¬ (Takes p.auth auth)) × (visited ≡ rejected)))
      × (provider_stream (target_table providers []) request stream e
          ≡ (connects stream name p.addr, e))
unfolding handle_visit provider_stream connect_target bound_to addressed
visit_reaches_provider mux id providers s name auth p request stream e o last asked =
    let bound = (access_binds_registered mux id providers s o).2 name in
    let found = rw last at bound in
    let targets = rw last at (get-target_table providers [] name) in
    (
      rw found (visit_by_auth name auth (record { connection_id = id; mux = mux; auth = p.auth })),
      rw (asked, targets, connect_target) refl,
    )
