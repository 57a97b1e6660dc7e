-- ===== src/Mux/Reading/Emptying.antt =====
-- How many calls of `poll_read` of crates/node-access-3role/src/mux.rs empty a stream.
use node_access.Prelude.{take}
use node_access.Prelude.{
  ℕ, zero, suc, ◌+◌, ◌-◌, ◌<◌, ◌≤◌, ◌≡◌, refl, sym, ap, ◌∙◌, Bool, Bool-cases, true, false, inl,
  inr, List, [], ◌∷◌, ◌++◌, append-nil, map, All, length, length-append, min, arith,
}
use node_access.Mux.Frame.{Bytes}
use node_access.Mux.Streams.{
  Received, ready, finished, pending, poll_read, receive_into, drain, length-drain,
}
use node_access.Mux.Reading.{
  Inbound, concat, poll_recv, tail, poll, Event, comes, ends, polls, play, came, waiting,
  poll-keeps, play-keeps, comes-waiting,
}

-- How many calls empty a stream at most: each puts a byte or takes a chunk.
abbrev pub calls : Bytes → List Bytes → ℕ
calls bytes chunks = length bytes + length chunks

receive_into-puts :
    (filled room : ℕ) (put buffer : Bytes) (r : Received)
    → length put ≤ length (receive_into filled room put buffer r).put
unfolding receive_into
receive_into-puts filled zero put buffer r = omega arith
receive_into-puts filled (suc room) put buffer (ready bytes) =
    omega (arith, length-append put (take (min (length bytes) (suc room)) bytes))
receive_into-puts filled (suc room) put buffer finished = omega arith
receive_into-puts filled (suc room) put buffer pending = omega arith

pub poll_read-puts :
    (filled room : ℕ) (buffer : Bytes) (r : Received)
    → min room (length buffer) ≤ length (poll_read filled room buffer r).put
unfolding poll_read
poll_read-puts filled room buffer r =
    let d = drain room buffer in
    omega (arith, length-drain room buffer, receive_into-puts filled (room - length d.0) d.0 d.1 r)

tail-shorter : (queue : List Bytes) → length (tail queue) ≡ length queue - 1
tail-shorter [] = omega arith
tail-shorter (chunk ∷ chunks) = omega arith

poll-shrinks :
    (filled room n : ℕ) (i : Inbound)
    → 0 < room
    → calls (waiting i) i.queue ≤ suc n
    → let r = poll filled room i in calls (waiting r.1) r.1.queue ≤ n
unfolding poll
poll-shrinks filled room n i h bound =
    let r = poll filled room i in
    let same = ap (λ (b : Bytes). length b) (poll-keeps filled room i) in
    let puts = poll_read-puts filled room i.read_buffer (poll_recv i.queue i.ended) in
    ground (
      arith,
      length-append r.0.put (waiting r.1),
      length-append i.read_buffer (concat i.queue),
      same,
      puts,
      tail-shorter i.queue,
    )

poll-calls :
    (filled room : ℕ) (i : Inbound)
    → let r = poll filled room i in calls (waiting r.1) r.1.queue ≤ calls (waiting i) i.queue
unfolding poll
poll-calls filled room i =
    let r = poll filled room i in
    let same = ap (λ (b : Bytes). length b) (poll-keeps filled room i) in
    ground (arith, length-append r.0.put (waiting r.1), same, tail-shorter i.queue)

play-calls :
    (es : List Event) (i : Inbound)
    → let r = play es i in
      let chunks = came i.ended es in
      calls (waiting r.1) r.1.queue ≤ calls (waiting i) i.queue + calls (concat chunks) chunks
unfolding play
play-calls [] i = omega arith
play-calls (comes payload ∷ es) i = elim (Bool-cases i.ended) [
  | inl y ↦ let ih = play-calls es i in rw y (rw y at ih)
  | inr y ↦
      let i1 = record i { queue = i.queue ++ payload ∷ [] } in
      let chunks = came false es in
      let ih = play-calls es i1 in
      let ih1 = rw y at ih in
      let more = ap (λ (b : Bytes). length b) (comes-waiting payload [] i) in
      rw y (
        omega (
          arith,
          ih1,
          more,
          length-append (waiting i1) [],
          length-append (waiting i) (payload ++ []),
          length-append payload [],
          length-append payload (concat chunks),
          length-append i.queue (payload ∷ []),
        ))
]
play-calls (ends ∷ es) i = play-calls es (record i { ended = true })
play-calls (polls filled room ∷ es) i =
    omega (arith, play-calls es (poll filled room i).1, poll-calls filled room i)

abbrev pub asks : ℕ × ℕ → Event
asks call = polls call.0 call.1

empty : (i : Inbound) → calls (waiting i) i.queue ≤ 0 → waiting i ≡ []
empty i h = nothing (waiting i) (omega (arith, h))
  where
    nothing : (b : Bytes) → length b ≤ 0 → b ≡ []
    nothing [] h = refl
    nothing (x ∷ b) h = absurd (omega (arith, h))

calls_empty :
    (rooms : List (ℕ × ℕ)) (i : Inbound)
    → All (λ (call : ℕ × ℕ). 0 < call.1) rooms
    → calls (waiting i) i.queue ≤ length rooms
    → waiting (play (map asks rooms) i).1 ≡ []
unfolding play
calls_empty [] i h bound = empty i bound
calls_empty (call ∷ rooms) i (h, hs) bound =
    calls_empty rooms (poll call.0 call.1 i).1 hs
      (poll-shrinks call.0 call.1 (length rooms) i h bound)

play-append :
    (es more : List Event) (i : Inbound) → (play (es ++ more) i).1 ≡ (play more (play es i).1).1
unfolding play
play-append [] more i = refl
play-append (comes payload ∷ es) more i = play-append es more _
play-append (ends ∷ es) more i = play-append es more (record i { ended = true })
play-append (polls filled room ∷ es) more i = play-append es more (poll filled room i).1

came-asks :
    (ended : Bool) (es : List Event) (rooms : List (ℕ × ℕ))
    → came ended (es ++ map asks rooms) ≡ came ended es
came-asks ended [] [] = refl
came-asks ended [] (call ∷ rooms) = came-asks ended [] rooms
came-asks ended (comes payload ∷ es) rooms = ground (arith, came-asks ended es rooms)
came-asks ended (ends ∷ es) rooms = came-asks true es rooms
came-asks ended (polls filled room ∷ es) rooms = came-asks ended es rooms

-- However calls and arrivals follow each other, enough calls with room afterwards, one for each
-- byte and one for each chunk, put everything that the stream had at first and everything that has
-- come until the sender was dropped, each byte once and in order, and leave nothing.
pub reads_all :
    (es : List Event) (rooms : List (ℕ × ℕ)) (i : Inbound)
    → All (λ (call : ℕ × ℕ). 0 < call.1) rooms
    → (let chunks = came i.ended es in
        calls (waiting i) i.queue + calls (concat chunks) chunks ≤ length rooms)
    → let r = play (es ++ map asks rooms) i in
      (r.0 ≡ waiting i ++ concat (came i.ended es)) × (waiting r.1 ≡ [])
reads_all es rooms i h bound =
    let r = play (es ++ map asks rooms) i in
    let after = (play es i).1 in
    let none_left : waiting r.1 ≡ [] =
      ap (λ (i : Inbound). waiting i) (play-append es (map asks rooms) i)
      ∙ calls_empty rooms after h (omega (arith, play-calls es i, bound)) in
    (
      sym (append-nil r.0)
          ∙ ap (λ (b : Bytes). r.0 ++ b) (sym none_left)
          ∙ play-keeps (es ++ map asks rooms) i
          ∙ ap (λ (chunks : List Bytes). waiting i ++ concat chunks) (came-asks i.ended es rooms),
      none_left,
    )
