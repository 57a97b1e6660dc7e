-- ===== src/Mux/Reading/Ends.antt =====
-- When a call of `poll_read` of crates/node-access-3role/src/mux.rs answers as at the end of the
-- stream.
use node_access.Prelude.{length-take}
use node_access.Prelude.{◌↔◌}
use node_access.Prelude.{take}
use node_access.Prelude.{
  ℕ, zero, suc, ◌-◌, ◌<◌, ◌≡◌, refl, ap, Bool, true, false, List, [], ◌∷◌, length, min, arith,
}
use node_access.Mux.Frame.{Bytes}
use node_access.Mux.Streams.{ready_ok, poll_read, receive_into, drain}
use node_access.Mux.Reading.{Inbound, poll_recv, poll}
use node_access.Mux.Reading.Emptying.{poll_read-puts}

-- What the front of the channel says where the read buffer is empty: the end.
abbrev pub IsEnd : List Bytes → Bool → Type 0
IsEnd [] true = Unit
IsEnd [] false = ⊥
IsEnd (chunk ∷ chunks) ended = chunk ≡ []

take_none :
    (room : ℕ) (chunk : Bytes) → take (min (length chunk) (suc room)) chunk ≡ [] → chunk ≡ []
take_none room [] e = refl
take_none room (x ∷ chunk) e = absurd (
    omega (
      arith,
      ap (λ (b : Bytes). length b) e,
      length-take (min (length (x ∷ chunk)) (suc room)) (x ∷ chunk),
    ))

take_nothing : (k : ℕ) → take {A = ℕ} k [] ≡ []
take_nothing zero = refl
take_nothing (suc k) = refl

received-Ends :
    (room : ℕ) (queue : List Bytes) (ended : Bool)
    → 0 < room
    → let r = receive_into 0 room [] [] (poll_recv queue ended) in
      ((r.answer ≡ ready_ok) × (r.put ≡ [])) ↔ IsEnd queue ended
unfolding receive_into
received-Ends zero queue ended h = absurd (omega arith)
received-Ends (suc room) [] true h = (λ e. tt, λ e. (refl, refl))
received-Ends (suc room) [] false h = (λ e. absurd (cc e.0), λ e. elim e [ ])
received-Ends (suc room) (chunk ∷ chunks) ended h = (
  λ e. take_none room chunk e.1,
  λ e. (refl, rw e (take_nothing (min (length {A = ℕ} []) (suc room)))),
)

read-Ends :
    (room : ℕ) (buffer : Bytes) (queue : List Bytes) (ended : Bool)
    → 0 < room
    → let r = poll_read 0 room buffer (poll_recv queue ended) in
      ((r.answer ≡ ready_ok) × (r.put ≡ [])) ↔ ((buffer ≡ []) × IsEnd queue ended)
unfolding poll_read drain
read-Ends zero buffer queue ended h = absurd (omega arith)
read-Ends (suc room) [] queue ended h =
    let (there, back) = received-Ends (suc room - 0) queue ended (omega arith) in
    (λ e. (refl, there e), λ e. back e.1)
read-Ends (suc room) (byte ∷ buffer) queue ended h = (
  λ e. absurd (
      omega (
        arith,
        poll_read-puts 0 (suc room) (byte ∷ buffer) (poll_recv queue ended),
        ap (λ (b : Bytes). length b) e.1,
      )),
  λ e. absurd (cc e.0),
)

-- A call with room, whose buffer is still empty, gives the answer that stands for the end of the
-- stream, ready without a byte, exactly where the read buffer is empty and either the sender has
-- been dropped and nothing waits in its channel, or the next chunk is an empty one, as an empty
-- write sends it.
pub poll-Ends :
    (room : ℕ) (i : Inbound)
    → 0 < room
    → let r = (poll 0 room i).0 in
      ((r.answer ≡ ready_ok) × (r.put ≡ [])) ↔ ((i.read_buffer ≡ []) × IsEnd i.queue i.ended)
unfolding poll
poll-Ends room i h = read-Ends room i.read_buffer i.queue i.ended h
