-- ===== src/Node/Starts/Notes.antt =====
-- What happens to one connection of a serving node over the inputs of its control channel's loop: it
-- is named, or its task ends.
use node_access.Prelude.{
  ℕ, ◌+◌, ◌≡◌, refl, ap, sym, ◌∙◌, Bool, true, false, none, some, List, [], ◌∷◌, ◌++◌, Text,
  text_Eq, ◌==◌, if◌then◌else◌, arith,
}
use node_access.HashMap.{get}
use node_access.Runtime.{Json}
use node_access.Session.Ids.Members.{is_some}
use node_access.Node.Events.{RelayControlEvent, connected, disconnected, sync, pong, read_event}
use node_access.Node.Relay.{RelayState}
use node_access.Node.Control.{
  TaskStep, takes_bind, finishes, ControlInput, failed, other, text, task,
}

unfoldable pub is_active : Text → RelayState → Bool
is_active id s = is_some (get id s.active_connections)

unfoldable pub count : Text → List Text → ℕ
count id [] = 0
count id (j ∷ ids) = if j == id then 1 + count id ids else count id ids

abbrev pub named : RelayControlEvent → List Text
named (connected id) = id ∷ []
named (sync ids) = ids
named (disconnected id) = []
named pong = []

-- What happens to one connection: it is named, or its task ends.
pub data Note : Type 0 where
  mentioned over : Note

unfoldable pub notes : Text → List Text → List Note
notes id [] = []
notes id (j ∷ ids) = if j == id then mentioned ∷ notes id ids else notes id ids

unfoldable pub note_task : Text → TaskStep → List Note
note_task id (takes_bind mux j name auth) = []
note_task id (finishes j) = if j == id then over ∷ [] else []

-- What happens to a connection, in order, up to the first input that ends the loop.
unfoldable pub told : Json → Text → List ControlInput → List Note
unfolding notes note_task
told json id [] = []
told json id (failed ∷ inputs) = []
told json id (other ∷ inputs) = told json id inputs
told json id (task step ∷ inputs) = note_task id step ++ told json id inputs
told json id (text t ∷ inputs) = elim (read_event json t) [
  | none ↦ []
  | some event ↦ notes id (named event) ++ told json id inputs
]

pub count-append : (id : Text) (xs ys : List Text) → count id (xs ++ ys) ≡ count id xs + count id ys
unfolding count
count-append id [] ys = omega arith
count-append id (x ∷ xs) ys = ground (arith, count-append id xs ys)

-- How often a task begins for a connection that runs or not: each time that it is named while none
-- runs.
unfoldable pub begins : Bool → List Note → ℕ
begins running [] = 0
begins true (mentioned ∷ ns) = begins true ns
begins false (mentioned ∷ ns) = 1 + begins true ns
begins running (over ∷ ns) = begins false ns

-- Whether a task runs after that.
unfoldable pub runs : Bool → List Note → Bool
runs running [] = running
runs running (mentioned ∷ ns) = runs true ns
runs running (over ∷ ns) = runs false ns

-- From a state where a connection is active or not.
pub record Starts (active : Bool) (ns : List Note) (after : Bool) (n : ℕ) : Type 0 where
  pub begun : n ≡ begins active ns
  pub now : after ≡ runs active ns

pub begins-append :
    (a : Bool) (x y : List Note) → begins a (x ++ y) ≡ begins a x + begins (runs a x) y
unfolding begins runs
begins-append a [] y = omega arith
begins-append true (mentioned ∷ x) y = begins-append true x y
begins-append false (mentioned ∷ x) y = omega (arith, begins-append true x y)
begins-append true (over ∷ x) y = begins-append false x y
begins-append false (over ∷ x) y = begins-append false x y

pub runs-append : (a : Bool) (x y : List Note) → runs a (x ++ y) ≡ runs (runs a x) y
unfolding runs
runs-append a [] y = refl
runs-append a (mentioned ∷ x) y = runs-append true x y
runs-append a (over ∷ x) y = runs-append false x y

pub Starts-then :
    (a b c : Bool) (x y : List Note) (m n : ℕ)
    → Starts a x b m
    → Starts b y c n
    → Starts a (x ++ y) c (m + n)
Starts-then a b c x y m n s t = record {
  begun = ground (arith, s.begun, t.begun, s.now, begins-append a x y);
  now = t.now ∙ ap (λ e. runs e y) s.now ∙ sym (runs-append a x y);
}

pub Starts-nothing : (a : Bool) → Starts a [] a 0
unfolding begins runs
Starts-nothing a = record { begun = refl; now = refl }
