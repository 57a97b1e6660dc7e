-- ===== src/Mux/Reader.antt =====
-- `read_loop` of crates/node-access-3role/src/mux.rs: handing each frame on to its stream. The `tx`
-- of a stream is the number of its channel; the channels are unbounded.
use node_access.Prelude.{
  Bool-cases, append_assoc, inr, ◌∙◌, append-nil, inl, Option-cases, sym, arith, ℕ, ◌+◌, ◌<◌, ◌≡◌,
  ◌≢◌, refl, Bool, false, Option, none, some, List, [], ◌∷◌, ◌++◌, nat_eq, ◌==◌, if◌then◌else◌,
}
use node_access.HashMap.{HashMap, get, insert, remove}
use node_access.HashMap.Laws.{get-insert, get-remove}
use node_access.Mux.Frame.{
  Bytes, OpenRequest, ControlMessage, MuxFrame, open_frame, data_frame, close_frame, control_frame,
}

pub record IncomingStream : Type 0 where
  pub request : OpenRequest
  pub stream_id : ℕ
  pub inbound : ℕ

-- What the loop works on: the table of the streams, how many channels there have been, and what has
-- been sent to the channels of the streams, to `incoming` and to `control`, in order.
pub record Reader : Type 0 where
  pub streams : HashMap ℕ ℕ
  pub channels : ℕ
  pub sent : List (ℕ × Bytes)
  pub incoming : List IncomingStream
  pub control : List ControlMessage
  pub closed : Bool

unfoldable pub send_to : Option ℕ → Bytes → Reader → Reader
send_to none payload r = r
send_to (some tx) payload r = record r { sent = r.sent ++ (tx, payload) ∷ [] }

-- The arms for a frame.
unfoldable pub dispatch : MuxFrame → Reader → Reader
unfolding send_to
dispatch (open_frame stream_id request) r = record r {
  streams = insert stream_id r.channels r.streams;
  channels = r.channels + 1;
  incoming =
      r.incoming ++ record { request = request; stream_id = stream_id; inbound = r.channels } ∷ [];
}
dispatch (data_frame stream_id payload) r = send_to (get stream_id r.streams) payload r
dispatch (close_frame stream_id) r = record r { streams = remove stream_id r.streams }
dispatch (control_frame message) r = record r { control = r.control ++ message ∷ [] }

unfoldable pub dispatch_all : List MuxFrame → Reader → Reader
dispatch_all [] r = r
dispatch_all (f ∷ fs) r = dispatch_all fs (dispatch f r)

-- What has been sent to a channel.
abbrev pub chunks : ℕ → List (ℕ × Bytes) → List Bytes
chunks c [] = []
chunks c ((tx, payload) ∷ sent) = if tx == c then payload ∷ chunks c sent else chunks c sent

-- The payloads of the data frames of a stream.
abbrev pub payloads : ℕ → List MuxFrame → List Bytes
payloads id [] = []
payloads id (data_frame stream_id payload ∷ fs) =
    if stream_id == id then payload ∷ payloads id fs else payloads id fs
payloads id (_ ∷ fs) = payloads id fs

-- No frame opens or closes the stream.
abbrev pub Untouched : ℕ → List MuxFrame → Type 0
Untouched id [] = Unit
Untouched id (open_frame stream_id request ∷ fs) = (stream_id ≢ id) × Untouched id fs
Untouched id (close_frame stream_id ∷ fs) = (stream_id ≢ id) × Untouched id fs
Untouched id (_ ∷ fs) = Untouched id fs

-- The stream has the channel, and no other stream has it.
pub record Owns (id c : ℕ) (r : Reader) : Type 0 where
  pub has : get id r.streams ≡ some c
  pub known : c < r.channels
  pub alone : (j : ℕ) → get j r.streams ≡ some c → j ≡ id

chunks-append :
    (c : ℕ) (xs ys : List (ℕ × Bytes)) → chunks c (xs ++ ys) ≡ chunks c xs ++ chunks c ys
chunks-append c [] ys = refl
chunks-append c ((tx, p) ∷ xs) ys = ground (arith, chunks-append c xs ys)

pub Owns-open :
    (id c j : ℕ) (request : OpenRequest) (r : Reader)
    → j ≢ id
    → Owns id c r
    → Owns id c (dispatch (open_frame j request) r)
unfolding dispatch
Owns-open id c j request r ne o = record {
  has = ground (arith, get-insert j id r.channels r.streams, o.has);
  known = omega (arith, o.known);
  alone = λ k e. ground (arith, get-insert j k r.channels r.streams, e, o.known, o.alone k);
}

pub Owns-close :
    (id c j : ℕ) (r : Reader) → j ≢ id → Owns id c r → Owns id c (dispatch (close_frame j) r)
unfolding dispatch
Owns-close id c j r ne o = record {
  has = ground (arith, get-remove j id r.streams, o.has);
  known = o.known;
  alone = λ k e. ground (arith, get-remove j k r.streams, e, o.alone k);
}

pub Owns-data :
    (id c j : ℕ) (payload : Bytes) (r : Reader)
    → Owns id c r
    → Owns id c (dispatch (data_frame j payload) r)
unfolding dispatch
Owns-data id c j payload r o = elim (Option-cases (get j r.streams)) [
  | inl e ↦ rw (e, send_to) o
  | inr (tx, e) ↦ rw (e, send_to) (record { has = o.has; known = o.known; alone = o.alone })
]

pub Owns-control :
    (id c : ℕ) (message : ControlMessage) (r : Reader)
    → Owns id c r
    → Owns id c (dispatch (control_frame message) r)
unfolding dispatch
Owns-control id c message r o = record { has = o.has; known = o.known; alone = o.alone }

chunks-send :
    (c tx : ℕ) (payload : Bytes) (rest : List Bytes) (sent : List (ℕ × Bytes))
    → chunks c (sent ++ (tx, payload) ∷ []) ++ rest
      ≡ chunks c sent ++ (if tx == c then payload ∷ rest else rest)
chunks-send c tx payload rest sent = elim (Bool-cases (tx == c)) [
  | inl y ↦
      rw (chunks-append c sent ((tx, payload) ∷ []), y)
        (append_assoc (chunks c sent) (payload ∷ []) rest)
  | inr y ↦ rw (chunks-append c sent ((tx, payload) ∷ []), y, append-nil (chunks c sent))
]

same_stream :
    (id c j tx : ℕ) (r : Reader) → Owns id c r → get j r.streams ≡ some tx → (tx == c) ≡ (j == id)
same_stream id c j tx r o e = ground (arith, o.has, o.alone j, e)

other_stream : (id c j : ℕ) (r : Reader) → Owns id c r → get j r.streams ≡ none → (j == id) ≡ false
other_stream id c j r o e = ground (arith, o.has, e)

pub dispatch-data :
    (id c j : ℕ) (payload : Bytes) (rest : List Bytes) (r : Reader)
    → Owns id c r
    → chunks c (dispatch (data_frame j payload) r).sent ++ rest
      ≡ chunks c r.sent ++ (if j == id then payload ∷ rest else rest)
unfolding dispatch send_to
dispatch-data id c j payload rest r o = elim (Option-cases (get j r.streams)) [
  | inl e ↦ rw (e, send_to, other_stream id c j r o e)
  | inr (tx, e) ↦
      rw (e, send_to, ← same_stream id c j tx r o e) (chunks-send c tx payload rest r.sent)
]

-- While no frame opens or closes a stream whose channel is its own, that channel gets exactly the
-- payloads of the stream's data frames, in their order, whatever frames of other streams and
-- control messages come in between.
pub dispatch_all-demultiplexes :
    (id c : ℕ) (frames : List MuxFrame) (r : Reader)
    → Owns id c r
    → Untouched id frames
    → chunks c (dispatch_all frames r).sent ≡ chunks c r.sent ++ payloads id frames
unfolding dispatch_all
dispatch_all-demultiplexes id c [] r o u = sym (append-nil (chunks c r.sent))
dispatch_all-demultiplexes id c (open_frame j request ∷ fs) r o (ne, u) =
    dispatch_all-demultiplexes id c fs (dispatch (open_frame j request) r)
      (Owns-open id c j request r ne o) u
    ∙ unfold dispatch in refl
dispatch_all-demultiplexes id c (close_frame j ∷ fs) r o (ne, u) =
    dispatch_all-demultiplexes id c fs (dispatch (close_frame j) r) (Owns-close id c j r ne o) u
    ∙ unfold dispatch in refl
dispatch_all-demultiplexes id c (data_frame j payload ∷ fs) r o u =
    dispatch_all-demultiplexes id c fs (dispatch (data_frame j payload) r)
      (Owns-data id c j payload r o) u
    ∙ dispatch-data id c j payload (payloads id fs) r o
dispatch_all-demultiplexes id c (control_frame message ∷ fs) r o u =
    dispatch_all-demultiplexes id c fs (dispatch (control_frame message) r)
      (Owns-control id c message r o) u
    ∙ unfold dispatch in refl
