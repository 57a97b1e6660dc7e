-- ===== src/Node/Starts.antt =====
-- The tasks that `run_control` of the two serving nodes begins.
pub mod Notes
use node_access.Prelude.{
  ℕ, ◌+◌, ◌≡◌, refl, ap, ◌∙◌, subst, Bool, Bool-cases, true, false, Option, Option-cases, none,
  some, inl, inr, List, [], ◌∷◌, ◌++◌, Text, text_Eq, ◌==◌, if◌then◌else◌, arith, text_eq_iff,
}
use node_access.Node.Starts.Notes.{
  is_active, count, notes, note_task, named, told, count-append, begins, runs, Starts, Starts-then,
  Starts-nothing,
}
use node_access.HashMap.{get}
use node_access.HashMap.Laws.{get-insert, get-remove}
use node_access.Runtime.{Json}
use node_access.Session.Ids.Members.{is_some}
use node_access.Node.Events.{RelayControlEvent, connected, disconnected, sync, pong, read_event}
use node_access.Node.Relay.{
  RelayState, ProviderEndpoint, start_connection, end_connection, start_all, control_event,
  handle_bind, bind_over, register_provider,
}
use node_access.Node.Serve.{
  ServeState, start_served_connection, shared, shared-start, serve_refines_relay,
}
use node_access.Node.Control.{
  TaskStep, takes_bind, finishes, ControlInput, failed, other, text, task, control_loop, relay_task,
  run_control, start_all_served, served_event, served_task, run_served_control,
}

start_connection-Starts :
    (j id : Text) (s : RelayState)
    → let r = start_connection j s in
      Starts
        (is_active id s)
        (notes id (j ∷ []))
        (is_active id r.1)
        (if r.0 then count id (j ∷ []) else 0)
unfolding start_connection count is_active notes begins runs
start_connection-Starts j id s = elim (Option-cases (get j s.active_connections)) [
  | inl e ↦ elim (Bool-cases (j == id)) [
    | inl y ↦
        let same = (text_eq_iff j id).0 y in
        let before : get id s.active_connections ≡ none = rw same at e in
        rw (start_connection, e, get-insert j id tt s.active_connections, before, y)
          (record { begun = refl; now = refl })
    | inr y ↦
        rw (start_connection, e, get-insert j id tt s.active_connections, y)
          (record { begun = refl; now = refl })
  ]
  | inr (u, e) ↦ elim (Bool-cases (j == id)) [
    | inl y ↦
        let same = (text_eq_iff j id).0 y in
        let before : get id s.active_connections ≡ some u = rw same at e in
        rw (start_connection, e, y, before) (record { begun = refl; now = refl })
    | inr y ↦ rw (start_connection, e, y) (record { begun = refl; now = refl })
  ]
]

count-if :
    (id j : Text) (begins : Bool) (ids : List Text)
    → count id (if begins then j ∷ ids else ids)
      ≡ (if begins then count id (j ∷ []) else 0) + count id ids
unfolding count
count-if id j true ids = ground arith
count-if id j false ids = omega arith

notes-cons :
    (id j : Text) (ids : List Text) → notes id (j ∷ ids) ≡ notes id (j ∷ []) ++ notes id ids
unfolding notes
notes-cons id j ids = ground arith

start_all-Starts :
    (ids : List Text) (id : Text) (s : RelayState)
    → let r = start_all ids s in
      Starts (is_active id s) (notes id ids) (is_active id r.1) (count id r.0)
unfolding start_all
start_all-Starts [] id s = unfold notes count in Starts-nothing (is_active id s)
start_all-Starts (j ∷ ids) id s =
    let r = start_connection j s in
    let first = start_connection-Starts j id s in
    let rest = start_all-Starts ids id r.1 in
    rw (notes-cons id j ids, count-if id j r.0 (start_all ids r.1).0)
      (Starts-then _ _ _ _ _ _ _ first rest)

control_event-Starts :
    (event : RelayControlEvent) (id : Text) (s : RelayState)
    → let r = control_event event s in
      Starts (is_active id s) (notes id (named event)) (is_active id r.1) (count id r.0)
unfolding control_event
control_event-Starts (connected j) id s = start_all-Starts (j ∷ []) id s
control_event-Starts (sync ids) id s = start_all-Starts ids id s
control_event-Starts (disconnected j) id s = start_all-Starts [] id s
control_event-Starts pong id s = start_all-Starts [] id s

ends-Starts :
    (j id : Text) (s : RelayState)
    → Starts (is_active id s) (note_task id (finishes j)) (is_active id (end_connection j s)) 0
unfolding end_connection is_active note_task begins runs
ends-Starts j id s = elim (Bool-cases (j == id)) [
  | inl y ↦ rw (get-remove j id s.active_connections, y) (record { begun = refl; now = refl })
  | inr y ↦ rw (get-remove j id s.active_connections, y) (record { begun = refl; now = refl })
]

binds-active :
    (o : Option ProviderEndpoint) (mux : ℕ) (j name : Text) (auth : Option Text) (s : RelayState)
    → (bind_over o mux j name auth s).1.active_connections ≡ s.active_connections
unfolding bind_over register_provider
binds-active none mux j name auth s = refl
binds-active (some existing) mux j name auth s = ground arith

relay_task-Starts :
    (step : TaskStep) (id : Text) (s : RelayState)
    → Starts (is_active id s) (note_task id step) (is_active id (relay_task step s)) 0
unfolding relay_task
relay_task-Starts (finishes j) id s = ends-Starts j id s
relay_task-Starts (takes_bind mux j name auth) id s =
    unfold note_task handle_bind is_active in
    rw (binds-active (get name s.providers) mux j name auth s)
      (Starts-nothing (is_some (get id s.active_connections)))

-- What the loop comes to for a connection, whatever state its handlers have.
module _ (json : Json) {S : Type 0} (handle : RelayControlEvent → S → List Text × S)
    (act : TaskStep → S → S) (active : Text → S → Bool)
    (starts : (event : RelayControlEvent) (id : Text) (s : S)
      → let r = handle event s in
        Starts (active id s) (notes id (named event)) (active id r.1) (count id r.0))
    (acts : (step : TaskStep) (id : Text) (s : S)
      → Starts (active id s) (note_task id step) (active id (act step s)) 0) where
  control_loop-Starts :
      (inputs : List ControlInput) (id : Text) (s : S)
      → let r = control_loop json handle act inputs s in
        Starts (active id s) (told json id inputs) (active id r.state) (count id r.started)
  unfolding control_loop told
  control_loop-Starts [] id s = unfold count in Starts-nothing (active id s)
  control_loop-Starts (failed ∷ inputs) id s = unfold count in Starts-nothing (active id s)
  control_loop-Starts (other ∷ inputs) id s = control_loop-Starts inputs id s
  control_loop-Starts (task step ∷ inputs) id s =
      subst (Starts (active id s) (told json id (task step ∷ inputs)) _) (omega arith)
        (Starts-then _ _ _ _ _ 0 _ (acts step id s) (control_loop-Starts inputs id (act step s)))
  control_loop-Starts (text t ∷ inputs) id s = elim (Option-cases (read_event json t)) [
    | inl e ↦ rw (control_loop, told, e) (unfold count in Starts-nothing (active id s))
    | inr (event, e) ↦
        let r = handle event s in
        let rest = control_loop-Starts inputs id r.1 in
        let both = Starts-then _ _ _ _ _ _ _ (starts event id s) rest in
        rw (control_loop, told, e)
          (rw (count-append id r.0 (control_loop json handle act inputs r.1).started) both)
  ]

-- For each connection, over the texts of the control channel and the binds and ends of the tasks of
-- all connections that come between them: a task begins for it each time that it is named, before
-- the loop ends, while it is not active, and never otherwise; it is active from then on until its
-- task ends. So when the loop has ended it is active exactly if it has been named since its last
-- task ended, or, where no task of it has ended, was active before or has been named.
pub run_control_starts_once :
    (json : Json) (inputs : List ControlInput) (id : Text) (s : RelayState)
    → let r = run_control json inputs s in
      (count id r.started ≡ begins (is_active id s) (told json id inputs))
      × (is_active id r.state ≡ runs (is_active id s) (told json id inputs))
unfolding run_control
run_control_starts_once json inputs id s =
    let r =
      control_loop-Starts json control_event relay_task is_active control_event-Starts
        relay_task-Starts inputs id s in
    (r.begun, r.now)

start_all_served-shared :
    (ids : List Text) (s : ServeState)
    → ((start_all_served ids s).0 ≡ (start_all ids (shared s)).0)
      × (shared (start_all_served ids s).1 ≡ (start_all ids (shared s)).1)
unfolding start_all_served start_all
start_all_served-shared [] s = (refl, refl)
start_all_served-shared (j ∷ ids) s =
    let (same, state, kept) = shared-start j s in
    let rest = start_all_served-shared ids (start_served_connection j s).1 in
    let run : List Text → Bool → List Text = λ js b. if b then j ∷ js else js in
    (
      ap (λ (js : List Text). run js (start_served_connection j s).0)
            (rest.0 ∙ ap (λ t. (start_all ids t).0) state)
          ∙ ap (run (start_all ids (start_connection j (shared s)).1).0) same,
      rest.1 ∙ ap (λ t. (start_all ids t).1) state,
    )

served_all-Starts :
    (ids : List Text) (id : Text) (s : ServeState)
    → let r = start_all_served ids s in
      Starts (is_active id (shared s)) (notes id ids) (is_active id (shared r.1)) (count id r.0)
served_all-Starts ids id s =
    let (same, state) = start_all_served-shared ids s in
    rw (same, state) (start_all-Starts ids id (shared s))

served_event-Starts :
    (event : RelayControlEvent) (id : Text) (s : ServeState)
    → let r = served_event event s in
      Starts
        (is_active id (shared s))
        (notes id (named event))
        (is_active id (shared r.1))
        (count id r.0)
unfolding served_event
served_event-Starts (connected j) id s = served_all-Starts (j ∷ []) id s
served_event-Starts (sync ids) id s = served_all-Starts ids id s
served_event-Starts (disconnected j) id s = unfold start_all_served in served_all-Starts [] id s
served_event-Starts pong id s = unfold start_all_served in served_all-Starts [] id s

served_task-Starts :
    (step : TaskStep) (id : Text) (s : ServeState)
    → Starts
        (is_active id (shared s))
        (note_task id step)
        (is_active id (shared (served_task step s)))
        0
unfolding served_task handle_bind relay_task
served_task-Starts (finishes j) id s =
    let both = serve_refines_relay 0 j [] none s in rw both.1 (ends-Starts j id (shared s))
served_task-Starts (takes_bind mux j name auth) id s =
    let both = serve_refines_relay mux j name auth s in
    rw (both.2.1) (relay_task-Starts (takes_bind mux j name auth) id (shared s))

-- On the control channel of the two-role node, too, a task begins for a connection each time that
-- it is named, before the loop ends, while it is not active, and never otherwise, whatever the tasks
-- do meanwhile; and it is active from then on until its task ends.
pub run_served_control_starts_once :
    (json : Json) (inputs : List ControlInput) (id : Text) (s : ServeState)
    → let r = run_served_control json inputs s in
      (count id r.started ≡ begins (is_active id (shared s)) (told json id inputs))
      × (is_active id (shared r.state) ≡ runs (is_active id (shared s)) (told json id inputs))
unfolding run_served_control
run_served_control_starts_once json inputs id s =
    let active : Text → ServeState → Bool = λ id s. is_active id (shared s) in
    let r =
      control_loop-Starts json served_event served_task active served_event-Starts
        served_task-Starts inputs id s in
    (r.begun, r.now)
