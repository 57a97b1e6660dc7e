-- ===== src/Mux/Streams.antt =====
-- The streams of crates/node-access-3role/src/mux.rs: the ids that an end gives out, and reading
-- from a stream.
use node_access.Prelude.{
  length-append, append-nil, ℕ, zero, suc, ◌+◌, ◌-◌, ◌*◌, ◌%◌, ◌^◌, ◌<◌, ◌≤◌, ◌≡◌, ◌≢◌, ◌⊎◌, ◌↔◌,
  inl, inr, refl, ap, ◌∙◌, [], ◌∷◌, ◌++◌, if◌then◌else◌, ltb, eqb, arith, length, take, drop, min,
  take-append-drop, append_assoc, length-take, sym, subst,
}
use node_access.Mux.Frame.{Bytes, u32_mod}

-- `next_stream_id.fetch_add(2)`: the id that is given out, and the next one, which wraps.
unfoldable pub fetch_stream_id : ℕ → ℕ × ℕ
fetch_stream_id next = (next, (next + 2) % u32_mod)

-- The id that the n-th call of `open_stream` gives out, counted from 0.
unfoldable pub nth_stream_id : ℕ → ℕ → ℕ
unfolding fetch_stream_id
nth_stream_id next zero = (fetch_stream_id next).0
nth_stream_id next (suc n) = nth_stream_id (fetch_stream_id next).1 n

nth_stream_id-parity : (next n : ℕ) → nth_stream_id next n % 2 ≡ next % 2
unfolding nth_stream_id
nth_stream_id-parity next zero = refl
nth_stream_id-parity next (suc n) = nth_stream_id-parity ((next + 2) % u32_mod) n ∙ omega arith

-- The ids of an end that begins with 1, as access nodes do, and of one that begins with 2, as the
-- serving nodes do, never meet, also after the counters have wrapped.
pub stream_ids_disjoint : (m n : ℕ) → nth_stream_id 1 m ≢ nth_stream_id 2 n
stream_ids_disjoint m n e =
    omega (arith, nth_stream_id-parity 1 m, nth_stream_id-parity 2 n, ap (λ (i : ℕ). i % 2) e)

nth_stream_id_lem : (next n : ℕ) → next < u32_mod → nth_stream_id next n ≡ (next + 2 * n) % u32_mod
unfolding nth_stream_id
nth_stream_id_lem next zero h = omega arith
nth_stream_id_lem next (suc n) h =
    nth_stream_id_lem ((next + 2) % u32_mod) n (omega arith) ∙ omega arith

-- An end does not give an id out again before it has given out 2^31 of them.
pub stream_ids_fresh :
    (next m n : ℕ)
    → next < u32_mod
    → m < n
    → n < m + 2 ^ 31
    → nth_stream_id next m ≢ nth_stream_id next n
stream_ids_fresh next m n h lt bound e =
    omega (arith, nth_stream_id_lem next m h, nth_stream_id_lem next n h, e)

-- What `poll_recv` of a stream's channel gives.
pub data Received : Type 0 where
  ready : Bytes → Received
  finished pending : Received

pub data PollRead : Type 0 where
  ready_ok poll_pending : PollRead

-- What a call of `poll_read` does: the bytes that it puts into the buffer, the new read buffer, its
-- answer, and whether it has asked the channel.
pub record Read : Type 0 where
  pub put : Bytes
  pub read_buffer : Bytes
  pub answer : PollRead

-- The `while buf.remaining() > 0` loop: bytes go from the front of the read buffer, as many as fit.
unfoldable pub drain : ℕ → Bytes → Bytes × Bytes
drain zero buffer = ([], buffer)
drain (suc room) [] = ([], [])
drain (suc room) (byte ∷ buffer) = let r = drain room buffer in (byte ∷ r.0, r.1)

-- After the loop: `put` is what the loop has put, `room` what it has left of the room, and `filled`
-- the number of bytes that the caller's buffer held before the call.
unfoldable pub receive_into : ℕ → ℕ → Bytes → Bytes → Received → Read
receive_into filled zero put buffer r = record {
  put = put;
  read_buffer = buffer;
  answer = ready_ok;
}
receive_into filled (suc room) put buffer (ready bytes) = record {
  put = put ++ take (min (length bytes) (suc room)) bytes;
  read_buffer = buffer ++ drop (min (length bytes) (suc room)) bytes;
  answer = ready_ok;
}
receive_into filled (suc room) put buffer finished = record {
  put = put;
  read_buffer = buffer;
  answer = ready_ok;
}
receive_into filled (suc room) put buffer pending = record {
  put = put;
  read_buffer = buffer;
  answer = if eqb (filled + length put) 0 then poll_pending else ready_ok;
}

unfoldable pub poll_read : ℕ → ℕ → Bytes → Received → Read
unfolding drain receive_into
poll_read filled room buffer r =
    let d = drain room buffer in receive_into filled (room - length d.0) d.0 d.1 r

-- The bytes that the call takes from the channel: it asks only if there is room left.
unfoldable pub taken : ℕ → Bytes → Received → Bytes
taken room buffer (ready bytes) = if ltb (length buffer) room then bytes else []
taken room buffer _ = []

pub drain-append :
    (room : ℕ) (buffer : Bytes) → (drain room buffer).0 ++ (drain room buffer).1 ≡ buffer
unfolding drain
drain-append zero buffer = refl
drain-append (suc room) [] = refl
drain-append (suc room) (b ∷ buffer) = ap (◌∷◌ b) (drain-append room buffer)

pub length-drain :
    (room : ℕ) (buffer : Bytes) → length (drain room buffer).0 ≡ min room (length buffer)
unfolding drain
length-drain zero buffer = omega arith
length-drain (suc room) [] = omega arith
length-drain (suc room) (b ∷ buffer) = omega (arith, length-drain room buffer)

-- Where there is room left, the read buffer has been emptied.
pub drain-rest : (room : ℕ) (buffer : Bytes) → length buffer < room → (drain room buffer).1 ≡ []
unfolding drain
drain-rest zero buffer h = absurd (omega arith)
drain-rest (suc room) [] h = refl
drain-rest (suc room) (b ∷ buffer) h = drain-rest room buffer (omega arith)

-- The bytes that the second half of the call takes from the channel, by the room that is left.
asked : ℕ → Received → Bytes
asked zero r = []
asked (suc room) (ready bytes) = bytes
asked (suc room) _ = []

receive_into-keeps :
    (filled room : ℕ) (put buffer : Bytes) (r : Received)
    → (0 < room → buffer ≡ [])
    → let read = receive_into filled room put buffer r in
      (read.put ++ read.read_buffer ≡ (put ++ buffer) ++ asked room r)
      × (length read.put ≤ length put + room)
unfolding receive_into asked
receive_into-keeps filled zero put buffer r h = (sym (append-nil (put ++ buffer)), omega arith)
receive_into-keeps filled (suc room) put buffer (ready bytes) h =
    let e : buffer ≡ [] = h (omega arith) in
    let k = min (length bytes) (suc room) in
    (
      rw (
        e,
        append-nil put,
        append_assoc put (take k bytes) (drop k bytes),
        take-append-drop k bytes,
      ),
      omega (arith, length-append put (take k bytes), length-take k bytes),
    )
receive_into-keeps filled (suc room) put buffer finished h =
    (sym (append-nil (put ++ buffer)), omega arith)
receive_into-keeps filled (suc room) put buffer pending h =
    (sym (append-nil (put ++ buffer)), omega arith)

asked_lem :
    (left size room : ℕ) (r : Received) (buffer : Bytes)
    → size ≡ length buffer
    → left ≡ room - min room size
    → taken room buffer r ≡ asked left r
unfolding taken asked
asked_lem zero size room (ready bytes) buffer h e = ground arith
asked_lem zero size room finished buffer h e = refl
asked_lem zero size room pending buffer h e = refl
asked_lem (suc left) size room (ready bytes) buffer h e = ground arith
asked_lem (suc left) size room finished buffer h e = refl
asked_lem (suc left) size room pending buffer h e = refl

-- No call of `poll_read` loses, doubles or reorders a byte: what it puts and then its new read
-- buffer are the old read buffer and then what came from the channel; and it puts no more than
-- fits.
pub poll_read_keeps_bytes :
    (filled room : ℕ) (buffer : Bytes) (r : Received)
    → let read = poll_read filled room buffer r in
      (read.put ++ read.read_buffer ≡ buffer ++ taken room buffer r) × (length read.put ≤ room)
unfolding poll_read
poll_read_keeps_bytes filled room buffer r =
    let d = drain room buffer in
    let left = room - length d.0 in
    let n = length-drain room buffer in
    let h : 0 < left → d.1 ≡ [] = λ p. drain-rest room buffer (omega (arith, n, p)) in
    let k = receive_into-keeps filled left d.0 d.1 r h in
    let t = asked_lem left (length buffer) room r buffer refl (omega (arith, n)) in
    (
      k.0 ∙ ap (λ (b : Bytes). b ++ asked left r) (drain-append room buffer) ∙ rw (t),
      omega (arith, k.1, n),
    )

-- What the channel gives has no bytes.
abbrev pub BringsNothing : Received → Type 0
BringsNothing r = (r ≡ pending) ⊎ ((r ≡ finished) ⊎ (r ≡ ready []))

-- Ready, with no byte put exactly if the call finds none.
abbrev EndsIf : Type 0 → Read → Type 0
EndsIf P read = (read.answer ≡ ready_ok) × ((read.put ≡ []) ↔ P)

nothing-take : (k : ℕ) → take {A = ℕ} k [] ≡ []
nothing-take zero = refl
nothing-take (suc k) = refl

receive_into-empty :
    (filled room : ℕ) (r : Received)
    → 0 < filled
    → EndsIf ((◌≡◌ {A = Bytes} [] []) × BringsNothing r) (receive_into filled (suc room) [] [] r)
unfolding receive_into
receive_into-empty filled room pending h = (ground arith, (λ e. (refl, inl refl), λ e. refl))
receive_into-empty filled room finished h = (refl, (λ e. (refl, inr (inl refl)), λ e. refl))
receive_into-empty filled room (ready []) h =
    (refl, (λ e. (refl, inr (inr refl)), λ e. nothing-take (min 0 (suc room))))
receive_into-empty filled room (ready (b ∷ bytes)) h =
    let k = min (length (b ∷ bytes)) (suc room) in
    let some_put : take k (b ∷ bytes) ≢ [] =
      λ e. absurd (omega (arith, ap length e, length-take k bytes, length-take k (b ∷ bytes))) in
    (refl, (λ e. absurd (some_put e), λ e. absurd (ground (arith, e.1))))

receive_into-some :
    (filled left b : ℕ) (put buffer rest : Bytes) (r : Received)
    → EndsIf ((b ∷ rest ≡ []) × BringsNothing r) (receive_into filled left (b ∷ put) buffer r)
unfolding receive_into
receive_into-some filled zero b put buffer rest r =
    (refl, (λ e. absurd (cc e), λ e. absurd (cc e.0)))
receive_into-some filled (suc left) b put buffer rest (ready bytes) =
    (refl, (λ e. absurd (cc e), λ e. absurd (cc e.0)))
receive_into-some filled (suc left) b put buffer rest finished =
    (refl, (λ e. absurd (cc e), λ e. absurd (cc e.0)))
receive_into-some filled (suc left) b put buffer rest pending =
    (ground arith, (λ e. absurd (cc e), λ e. absurd (cc e.0)))

-- A call with room, where the caller's buffer held bytes before, is never pending; and it is ready
-- without having put a byte, the answer that stands for the end of the stream, exactly where the
-- read buffer is empty and the channel gives no bytes, be it that its sender has been dropped, that
-- the next chunk is empty, or merely that nothing has come yet.
pub poll_read_spurious_end :
    (filled room : ℕ) (buffer : Bytes) (r : Received)
    → 0 < filled
    → 0 < room
    → let read = poll_read filled room buffer r in
      (read.answer ≡ ready_ok) × ((read.put ≡ []) ↔ ((buffer ≡ []) × BringsNothing r))
unfolding poll_read drain
poll_read_spurious_end filled zero buffer r hf hr = absurd (omega arith)
poll_read_spurious_end filled (suc room) [] r hf hr =
    let same : suc room ≡ suc room - 0 = omega arith in
    subst (λ n. EndsIf ((◌≡◌ {A = Bytes} [] []) × BringsNothing r) (receive_into filled n [] [] r))
      same (receive_into-empty filled room r hf)
poll_read_spurious_end filled (suc room) (b ∷ buffer) r hf hr =
    receive_into-some filled _ b (drain room buffer).0 (drain room buffer).1 buffer r
