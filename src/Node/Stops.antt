-- ===== src/Node/Stops.antt =====
-- How `run_control` of the two serving nodes ends: at a failed read, at a text that is no event, or
-- where the socket ends.
use node_access.Prelude.{
  ◌≡◌, refl, ap, Bool, true, false, Option-cases, inl, inr, List, [], ◌∷◌, ◌++◌, Text, All, arith,
}
use node_access.Runtime.{Json}
use node_access.Session.Ids.Members.{is_some}
use node_access.Node.Events.{RelayControlEvent, read_event}
use node_access.Node.Relay.{RelayState, control_event}
use node_access.Node.Control.{
  TaskStep, ControlInput, failed, other, text, task, ControlEnd, finished, read_error,
  invalid_event, ControlRun, control_loop, relay_task, run_control,
}

-- An input that the loop goes on after, and how it ends at one that it does not.
abbrev pub passes : Json → ControlInput → Bool
passes json failed = false
passes json other = true
passes json (text t) = is_some (read_event json t)
passes json (task step) = true

abbrev pub ending : ControlInput → ControlEnd
ending failed = read_error
ending other = finished
ending (text t) = invalid_event t
ending (task step) = finished

module _ (json : Json) {S : Type 0} (handle : RelayControlEvent → S → List Text × S)
    (act : TaskStep → S → S) where
  control_loop_stops :
      (before : List ControlInput) (bad : ControlInput) (rest : List ControlInput) (s : S)
      → All (λ input. passes json input ≡ true) before
      → passes json bad ≡ false
      → let r = control_loop json handle act before s in
        (control_loop json handle act (before ++ bad ∷ rest) s ≡ record r { ended = ending bad })
        × (r.ended ≡ finished)
  unfolding control_loop
  control_loop_stops [] failed rest s p b = (refl, refl)
  control_loop_stops [] other rest s p b = absurd (ground (arith, b))
  control_loop_stops [] (text t) rest s p b = elim (Option-cases (read_event json t)) [
    | inl e ↦ (rw (control_loop, e) refl, refl)
    | inr (event, e) ↦ absurd (ground (arith, b, e))
  ]
  control_loop_stops [] (task step) rest s p b = absurd (ground (arith, b))
  control_loop_stops (failed ∷ before) bad rest s (p, ps) b = absurd (ground (arith, p))
  control_loop_stops (other ∷ before) bad rest s (p, ps) b =
      control_loop_stops before bad rest s ps b
  control_loop_stops (task step ∷ before) bad rest s (p, ps) b =
      control_loop_stops before bad rest (act step s) ps b
  control_loop_stops (text t ∷ before) bad rest s (p, ps) b =
      elim (Option-cases (read_event json t)) [
        | inl e ↦ absurd (ground (arith, p, e))
        | inr (event, e) ↦
            let r = handle event s in
            let (same, ended) = control_loop_stops before bad rest r.1 ps b in
            rw (control_loop, e)
              (ap (λ (x : ControlRun S). record x { started = r.0 ++ x.started }) same, ended)
      ]

-- `run_control` of the relay node ends in an error at the first input that is a failed read or a
-- text that is no event, with that error; the tasks that have begun and the state are those of a
-- loop over the inputs before it, which ends without an error, and what comes after it has no
-- effect.
pub run_control_stops :
    (json : Json) (before : List ControlInput) (bad : ControlInput) (rest : List ControlInput)
    (s : RelayState)
    → All (λ input. passes json input ≡ true) before
    → passes json bad ≡ false
    → let r = run_control json before s in
      (run_control json (before ++ bad ∷ rest) s ≡ record r { ended = ending bad })
      × (r.ended ≡ finished)
unfolding run_control
run_control_stops json before bad rest s =
    control_loop_stops json control_event relay_task before bad rest s
