-- ===== src/Mux/Reading.antt =====
-- Reading from a stream of crates/node-access-3role/src/mux.rs while its channel fills: `poll_read`
-- by its calls, what comes between them, and the drop of the sender at the end of the stream.
pub mod Emptying
pub mod Ends
use node_access.Prelude.{length-take}
use node_access.Prelude.{◌↔◌}
use node_access.Prelude.{take}
use node_access.Prelude.{
  ℕ, zero, suc, ◌+◌, ◌-◌, ◌<◌, ◌≤◌, ◌≡◌, refl, sym, ap, ◌∙◌, Bool, Bool-cases, true, false, inl,
  inr, List, [], ◌∷◌, ◌++◌, append_assoc, append-nil, map, All, length, length-append, min, ltb,
  if◌then◌else◌, arith,
}
use node_access.Mux.Frame.{Bytes}
use node_access.Mux.Streams.{
  Received, ready, finished, pending, ready_ok, Read, poll_read, receive_into, drain, taken,
  length-drain, poll_read_keeps_bytes,
}

-- A stream's read buffer, what waits in its channel, and whether the sender has been dropped.
pub record Inbound : Type 0 where
  pub read_buffer : Bytes
  pub queue : List Bytes
  pub ended : Bool

abbrev pub concat : List Bytes → Bytes
concat [] = []
concat (chunk ∷ chunks) = chunk ++ concat chunks

-- `poll_recv` of the channel, and what is left in it.
abbrev pub poll_recv : List Bytes → Bool → Received
poll_recv [] true = finished
poll_recv [] false = pending
poll_recv (chunk ∷ chunks) ended = ready chunk

abbrev pub tail : List Bytes → List Bytes
tail [] = []
tail (chunk ∷ chunks) = chunks

-- One call: the channel is asked only if there is room left.
unfoldable pub poll : ℕ → ℕ → Inbound → Read × Inbound
unfolding poll_read
poll filled room i =
    let r = poll_read filled room i.read_buffer (poll_recv i.queue i.ended) in
    (
      r,
      record i {
        read_buffer = r.read_buffer;
        queue = if ltb (length i.read_buffer) room then tail i.queue else i.queue;
      },
    )

pub data Event : Type 0 where
  comes : Bytes → Event
  ends : Event
  polls : ℕ → ℕ → Event

-- The bytes that the calls put, in order, and the stream afterwards.
unfoldable pub play : List Event → Inbound → Bytes × Inbound
unfolding poll
play [] i = ([], i)
play (comes payload ∷ es) i =
    play es (if i.ended then i else record i { queue = i.queue ++ payload ∷ [] })
play (ends ∷ es) i = play es (record i { ended = true })
play (polls filled room ∷ es) i =
    let r = poll filled room i in let rest = play es r.1 in (r.0.put ++ rest.0, rest.1)

-- What the channel takes, until its sender is dropped.
abbrev pub came : Bool → List Event → List Bytes
came ended [] = []
came ended (comes payload ∷ es) = if ended then came ended es else payload ∷ came ended es
came ended (ends ∷ es) = came true es
came ended (polls filled room ∷ es) = came ended es

-- The bytes that a stream still has.
abbrev pub waiting : Inbound → Bytes
waiting i = i.read_buffer ++ concat i.queue

pub concat-append : (xs ys : List Bytes) → concat (xs ++ ys) ≡ concat xs ++ concat ys
concat-append [] ys = refl
concat-append (x ∷ xs) ys =
    ap (λ (b : Bytes). x ++ b) (concat-append xs ys) ∙ sym (append_assoc x (concat xs) (concat ys))

taken-tail :
    (room : ℕ) (buffer : Bytes) (queue : List Bytes) (ended : Bool)
    → taken room buffer (poll_recv queue ended)
        ++ concat (if ltb (length buffer) room then tail queue else queue)
      ≡ concat queue
unfolding taken
taken-tail room buffer [] true = ground arith
taken-tail room buffer [] false = ground arith
taken-tail room buffer (chunk ∷ chunks) ended = elim (Bool-cases (ltb (length buffer) room)) [
  | inl y ↦ rw y refl
  | inr y ↦ rw y refl
]

pub poll-keeps :
    (filled room : ℕ) (i : Inbound)
    → let r = poll filled room i in r.0.put ++ waiting r.1 ≡ waiting i
unfolding poll
poll-keeps filled room i =
    let given = poll_recv i.queue i.ended in
    let read = poll_read filled room i.read_buffer given in
    let queue : List Bytes = if ltb (length i.read_buffer) room then tail i.queue else i.queue in
    let (k, fits) = poll_read_keeps_bytes filled room i.read_buffer given in
    sym (append_assoc read.put read.read_buffer (concat queue))
    ∙ ap (λ (b : Bytes). b ++ concat queue) k
    ∙ append_assoc i.read_buffer (taken room i.read_buffer given) (concat queue)
    ∙ ap (λ (b : Bytes). i.read_buffer ++ b) (taken-tail room i.read_buffer i.queue i.ended)

pub comes-waiting :
    (payload rest : Bytes) (i : Inbound)
    → waiting (record i { queue = i.queue ++ payload ∷ [] }) ++ rest
      ≡ waiting i ++ (payload ++ rest)
comes-waiting payload rest i =
    rw
      (
        concat-append i.queue (payload ∷ []),
        append-nil payload,
        append_assoc i.read_buffer (concat i.queue ++ payload) rest,
        append_assoc (concat i.queue) payload rest,
        append_assoc i.read_buffer (concat i.queue) (payload ++ rest),
      )
      refl

-- However calls and arrivals follow each other, what the calls have put and then what the stream
-- still has are what it had at first and then what has come, until the sender was dropped.
pub play-keeps :
    (es : List Event) (i : Inbound)
    → let r = play es i in r.0 ++ waiting r.1 ≡ waiting i ++ concat (came i.ended es)
unfolding play
play-keeps [] i = sym (append-nil (waiting i))
play-keeps (comes payload ∷ es) i = elim (Bool-cases i.ended) [
  | inl y ↦ let ih = play-keeps es i in rw y (rw y at ih)
  | inr y ↦
      let ih = play-keeps es (record i { queue = i.queue ++ payload ∷ [] }) in
      rw y ((rw y at ih) ∙ comes-waiting payload (concat (came false es)) i)
]
play-keeps (ends ∷ es) i = play-keeps es (record i { ended = true })
play-keeps (polls filled room ∷ es) i =
    let r = poll filled room i in
    let rest = play es r.1 in
    append_assoc r.0.put rest.0 (waiting rest.1)
    ∙ ap (λ (b : Bytes). r.0.put ++ b) (play-keeps es r.1)
    ∙ sym (append_assoc r.0.put (waiting r.1) (concat (came r.1.ended es)))
    ∙ ap (λ (b : Bytes). b ++ concat (came i.ended es)) (poll-keeps filled room i)
