-- ===== src/Node/Providers.antt =====
-- The providers that crates/node-access-3role/src/bin/node-relay.rs keeps, over the runs of its
-- tasks.
use node_access.Prelude.{
  ◌↔◌, ℕ, ◌≡◌, ◌≢◌, inl, inr, refl, sym, ◌∙◌, Bool, true, not, Option, none, some, List, [], ◌∷◌,
  Text, text_Eq, ◌==◌, Bool-cases, Option-cases, arith, text_eq_iff,
}
use node_access.HashMap.{HashMap, get, remove, retain}
use node_access.HashMap.Laws.{get-insert, get-remove, get-remove_self}
use node_access.HashMap.Entries.{Entries, Entries-insert, Entries-get, Entries-weaken}
use node_access.Mux.Frame.{provider_connect}
use node_access.Node.Events.{RelayControlEvent}
use node_access.Node.Mapping.{auth_matches}
use node_access.Node.Relay.{
  ProviderEndpoint, RelayState, new_relay, start_connection, end_connection, start_all,
  control_event, handle_bind, bind_over, register_provider, open_on, handle_visit, visit_provider,
}

-- A step of the node on its state: an event of the control channel, a bind on the data connection
-- of a task that has begun and not ended, or the end of such a task.
pub data Step (s : RelayState) : RelayState → Type 0 where
  told : (event : RelayControlEvent) → Step s (control_event event s).1
  bound :
      (mux : ℕ) (connection_id name : Text) (auth : Option Text)
      → get connection_id s.active_connections ≡ some tt
      → Step s (handle_bind mux connection_id name auth s).1
  ended : (connection_id : Text) → Step s (end_connection connection_id s)

pub data Reachable : RelayState → Type 0 where
  begins : Reachable new_relay
  follows : {s t : RelayState} → Reachable s → Step s t → Reachable t

abbrev IsActive : RelayState → Text → Type 0
IsActive s connection_id = get connection_id s.active_connections ≡ some tt

-- The tasks of all providers run.
abbrev pub ProvidersActive : RelayState → Type 0
ProvidersActive s = Entries (λ name provider. IsActive s provider.connection_id) s.providers

start_connection-IsActive :
    (id other : Text) (s : RelayState) → IsActive s other → IsActive (start_connection id s).1 other
unfolding start_connection
start_connection-IsActive id other s h = elim (Option-cases (get id s.active_connections)) [
  | inl e ↦
      rw (start_connection, e) (ground (arith, get-insert id other tt s.active_connections, h))
  | inr (u, e) ↦ rw (start_connection, e) h
]

start_connection-providers :
    (id : Text) (s : RelayState) → (start_connection id s).1.providers ≡ s.providers
unfolding start_connection
start_connection-providers id s = elim (Option-cases (get id s.active_connections)) [
  | inl e ↦ rw (start_connection, e) refl
  | inr (u, e) ↦ rw (start_connection, e) refl
]

start_all-ProvidersActive :
    (ids : List Text) (s : RelayState) → ProvidersActive s → ProvidersActive (start_all ids s).1
unfolding start_all
start_all-ProvidersActive [] s h = h
start_all-ProvidersActive (id ∷ ids) s h = start_all-ProvidersActive ids (start_connection id s).1 (
    rw (start_connection-providers id s) (
      Entries-weaken _ _ s.providers (λ k v p. start_connection-IsActive id v.connection_id s p) h))

control_event-ProvidersActive :
    (event : RelayControlEvent) (s : RelayState)
    → ProvidersActive s
    → ProvidersActive (control_event event s).1
unfolding control_event
control_event-ProvidersActive (RelayControlEvent.connected id) s h =
    start_all-ProvidersActive (id ∷ []) s h
control_event-ProvidersActive (RelayControlEvent.sync ids) s h = start_all-ProvidersActive ids s h
control_event-ProvidersActive (RelayControlEvent.disconnected id) s h = h
control_event-ProvidersActive RelayControlEvent.pong s h = h

bind_over-ProvidersActive :
    (o : Option ProviderEndpoint) (mux : ℕ) (id name : Text) (auth : Option Text) (s : RelayState)
    → IsActive s id
    → ProvidersActive s
    → ProvidersActive (bind_over o mux id name auth s).1
unfolding bind_over register_provider
bind_over-ProvidersActive none mux id name auth s a h = Entries-insert _ name _ s.providers a h
bind_over-ProvidersActive (some existing) mux id name auth s a h =
    elim (Bool-cases (existing.connection_id == id)) [
      | inl y ↦ rw y (Entries-insert _ name _ s.providers a h)
      | inr y ↦ rw y h
    ]

retained_active :
    (id : Text) (m : HashMap Text ProviderEndpoint) (a : HashMap Text (Unit {0}))
    → Entries (λ name p. get p.connection_id a ≡ some tt) m
    → Entries
        (λ name p. get p.connection_id (remove id a) ≡ some tt)
        (retain (λ p. not (p.connection_id == id)) m)
unfolding retain
retained_active id [] a h = tt
retained_active id ((k, p) ∷ m) a (h, hs) = elim (Bool-cases (p.connection_id == id)) [
  | inl y ↦ rw y (retained_active id m a hs)
  | inr y ↦ rw y (
    ground (
      arith,
      get-remove id p.connection_id a,
      h,
      text_eq_iff id p.connection_id,
      text_eq_iff p.connection_id id,
      y,
    ),
    retained_active id m a hs,
  )
]

Step-ProvidersActive : {s t : RelayState} → Step s t → ProvidersActive s → ProvidersActive t
unfolding handle_bind end_connection
Step-ProvidersActive (told event) h = control_event-ProvidersActive event _ h
Step-ProvidersActive {s} (bound mux id name auth a) h =
    bind_over-ProvidersActive (get name s.providers) mux id name auth s a h
Step-ProvidersActive {s} (ended id) h = retained_active id s.providers s.active_connections h

-- In every state that the node comes to, the connection of every provider is active.
pub Reachable-ProvidersActive : {s : RelayState} → Reachable s → ProvidersActive s
Reachable-ProvidersActive begins = tt
Reachable-ProvidersActive (follows r step) = Step-ProvidersActive step (Reachable-ProvidersActive r)

-- A provider of the name whose connection is the given one.
abbrev pub Provides : Text → Text → RelayState → Type 0
Provides connection_id name s =
    (p : ProviderEndpoint) × (get name s.providers ≡ some p) × (p.connection_id ≡ connection_id)

-- The step does not end the connection's task.
abbrev pub Spares : {s t : RelayState} → Text → Step s t → Type 0
Spares connection_id (ended id) = id ≢ connection_id
Spares connection_id _ = Unit

start_all-providers :
    (ids : List Text) (s : RelayState) → (start_all ids s).1.providers ≡ s.providers
unfolding start_all
start_all-providers [] s = refl
start_all-providers (id ∷ ids) s =
    start_all-providers ids (start_connection id s).1 ∙ start_connection-providers id s

pub control_event-providers :
    (event : RelayControlEvent) (s : RelayState) → (control_event event s).1.providers ≡ s.providers
unfolding control_event
control_event-providers (RelayControlEvent.connected id) s = start_all-providers (id ∷ []) s
control_event-providers (RelayControlEvent.sync ids) s = start_all-providers ids s
control_event-providers (RelayControlEvent.disconnected id) s = refl
control_event-providers RelayControlEvent.pong s = refl

get-retain :
    (q : ProviderEndpoint → Bool) (k : Text) (m : HashMap Text ProviderEndpoint)
    (v : ProviderEndpoint)
    → get k m ≡ some v
    → q v ≡ true
    → get k (retain q m) ≡ some v
unfolding get retain
get-retain q k [] v e h = e
get-retain q k ((j, w) ∷ m) v e h = elim (Bool-cases (j == k)) [
  | inl y ↦ let z : some w ≡ some v = rw y at e in let z' : w ≡ v = cc z in rw (z', h, y)
  | inr y ↦
      let rest = get-retain q k m v (rw y at e) h in
      elim (Bool-cases (q w)) [ inl x ↦ rw (x, y) rest | inr x ↦ rw x rest ]
]

register-Provides :
    (mux : ℕ) (id name other : Text) (auth : Option Text) (s : RelayState) (c : Text)
    → (other ≡ name → id ≡ c)
    → Provides c name s
    → Provides c name (register_provider mux id other auth s).1
unfolding register_provider
register-Provides mux id name other auth s c own (p, has, same) =
    let new : ProviderEndpoint = record { connection_id = id; mux = mux; auth = auth } in
    let g = get-insert other name new s.providers in
    elim (Bool-cases (other == name)) [
      | inl y ↦ (new, rw y at g, own ((text_eq_iff other name).0 y))
      | inr y ↦ (p, (rw y at g) ∙ has, same)
    ]

bind_over-Provides :
    (o : Option ProviderEndpoint) (mux : ℕ) (id name other : Text) (auth : Option Text)
    (s : RelayState) (c : Text)
    → get other s.providers ≡ o
    → Provides c name s
    → Provides c name (bind_over o mux id other auth s).1
unfolding bind_over
bind_over-Provides none mux id name other auth s c e (p, has, same) =
    register-Provides mux id name other auth s c (λ q. absurd (cc (e, has, q))) (p, has, same)
bind_over-Provides (some existing) mux id name other auth s c e (p, has, same) =
    elim (Bool-cases (existing.connection_id == id)) [
      | inl y ↦
          let mine : existing.connection_id ≡ id = (text_eq_iff existing.connection_id id).0 y in
          let own : other ≡ name → id ≡ c = λ q.
            let z : some existing ≡ some p = cc (e, has, q) in
            let z' : existing ≡ p = cc z in sym mine ∙ rw (z') same in
          rw y (register-Provides mux id name other auth s c own (p, has, same))
      | inr y ↦ rw y (p, has, same)
    ]

-- A service stays with the connection that has bound it: no step takes a name away from it, be it
-- the bind of another connection or the end of one, as long as its own task does not end.
pub Step-Provides :
    {s t : RelayState} (connection_id name : Text) (step : Step s t)
    → Spares connection_id step
    → Provides connection_id name s
    → Provides connection_id name t
unfolding handle_bind end_connection
Step-Provides {s} c name (told event) spared (p, has, same) =
    (p, rw (control_event-providers event s) has, same)
Step-Provides {s} c name (bound mux id other auth a) spared provided =
    bind_over-Provides (get other s.providers) mux id name other auth s c refl provided
Step-Provides {s} c name (ended id) spared (p, has, same) = (
  p,
  get-retain (λ q. not (q.connection_id == id)) name s.providers p has
      (ground (arith, same, spared, text_eq_iff p.connection_id id)),
  same,
)

-- When the task of a connection has ended, in a state that the node comes to, it provides nothing.
pub end_connection-Provides :
    (s : RelayState) (connection_id name : Text)
    → Reachable s
    → ¬ Provides connection_id name (end_connection connection_id s)
unfolding end_connection
end_connection-Provides s c name r (p, has, same) =
    let a = Entries-get _ name _ (Reachable-ProvidersActive (follows r (ended c))) has in
    let b = get-remove_self c s.active_connections in
    let a' : get c (remove c s.active_connections) ≡ some tt = rw same at a in absurd (cc (a', b))

-- A visit is led to a connection exactly if the name has a provider whose auth matches the
-- visitor's, and then to that provider's connection, under that name.
pub handle_visit_opens :
    (name : Text) (auth : Option Text) (s : RelayState) (mux : ℕ)
    → (handle_visit name auth s ≡ open_on mux (provider_connect name)) ↔ (
        (p : ProviderEndpoint) × (get name s.providers ≡ some p)
        × (p.mux ≡ mux)
        × (auth_matches p.auth auth ≡ true))
unfolding handle_visit visit_provider
handle_visit_opens name auth s mux = opens (get name s.providers) refl
  where
    opens :
        (o : Option ProviderEndpoint)
        → get name s.providers ≡ o
        → (visit_provider name auth o ≡ open_on mux (provider_connect name)) ↔ (
            (p : ProviderEndpoint) × (o ≡ some p)
            × (p.mux ≡ mux)
            × (auth_matches p.auth auth ≡ true))
    opens none e = (λ v. absurd (cc v), λ (p, q, m, a). absurd (cc q))
    opens (some provider) e = (
      λ v. (provider, refl, ground (arith, v), ground (arith, v)),
      λ (p, q, m, a). ground (arith, q, m, a),
    )
