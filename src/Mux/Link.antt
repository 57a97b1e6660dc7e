-- ===== src/Mux/Link.antt =====
-- Two ends of crates/node-access-3role/src/mux.rs that are joined, while their loops run: each
-- works on its streams, and its oldest frame that waits arrives at the other end, in any
-- interleaving.
pub mod Delivery
use node_access.Prelude.{
  subst, ℕ, ◌+◌, ◌%◌, ◌≡◌, ◌≢◌, refl, sym, ap, ◌∙◌, Bool, true, false, Bool-cases, inl, inr, List,
  [], ◌∷◌, ◌++◌, append_assoc, append-nil, nat_eq, if◌then◌else◌, arith,
}
use node_access.HashMap.{insert, remove}
use node_access.Mux.Frame.{
  Bytes, OpenRequest, ControlMessage, MuxFrame, open_frame, data_frame, close_frame, control_frame,
  u32_mod,
}
use node_access.Mux.Streams.{fetch_stream_id}
use node_access.Mux.Reader.{
  dispatch, chunks, payloads, Untouched, Owns, Owns-open, Owns-close, Owns-data, Owns-control,
  dispatch-data,
}
use node_access.Mux.Endpoint.{
  Endpoint, VirtualStream, send, open_stream, send_control, poll_write, close_remote, drop_stream,
  arrive,
}

-- What an end does on its own.
pub data Op : Type 0 where
  opens : OpenRequest → Op
  tells : ControlMessage → Op
  writes : VirtualStream → Bytes → Op
  closes drops : VirtualStream → Op

unfoldable pub apply : Op → Endpoint → Endpoint
unfolding open_stream send_control poll_write close_remote drop_stream
apply (opens request) e = (open_stream request e).1
apply (tells message) e = (send_control message e).1
apply (writes stream payload) e = (poll_write stream payload e).1
apply (closes stream) e = (close_remote stream e).1
apply (drops stream) e = drop_stream stream e

pub record Link : Type 0 where
  pub near : Endpoint
  pub far : Endpoint

pub data Step (l : Link) : Link → Type 0 where
  near_does : (op : Op) → Step l (record l { near = apply op l.near })
  far_does : (op : Op) → Step l (record l { far = apply op l.far })
  near_hears :
      (f : MuxFrame) (rest : List MuxFrame)
      → l.far.outbound ≡ f ∷ rest
      → Step l (record { near = arrive f l.near; far = record (l.far) { outbound = rest } })
  far_hears :
      (f : MuxFrame) (rest : List MuxFrame)
      → l.near.outbound ≡ f ∷ rest
      → Step l (record { near = record (l.near) { outbound = rest }; far = arrive f l.far })

-- The near end neither opens the stream nor closes or drops it, and the far end does not drop it.
abbrev pub Spares : (id : ℕ) (l : Link) {l' : Link} → Step l l' → Type 0
Spares id l (near_does (opens request)) = l.near.next_stream_id ≢ id
Spares id l (near_does (closes stream)) = stream.stream_id ≢ id
Spares id l (near_does (drops stream)) = stream.stream_id ≢ id
Spares id l (far_does (drops stream)) = stream.stream_id ≢ id
Spares id l _ = Unit

-- What the near end writes on the stream.
abbrev pub writing : (id : ℕ) (l : Link) {l' : Link} → Step l l' → List Bytes
writing id l (near_does (writes stream payload)) =
    if l.near.writer_open then payloads id (data_frame stream.stream_id payload ∷ []) else []
writing id l _ = []

-- The far end has a channel of its own for the stream, no frame on the way opens or closes it, and
-- it is not an id that the far end gives out.
pub record Carries (id c : ℕ) (l : Link) : Type 0 where
  pub owns : Owns id c l.far.reader
  pub untouched : Untouched id l.near.outbound
  pub foreign : id % 2 ≢ l.far.next_stream_id % 2

-- What the far end's channel has got of the stream, and what is on its way to it.
abbrev pub transit : ℕ → ℕ → Link → List Bytes
transit id c l = chunks c l.far.reader.sent ++ payloads id l.near.outbound

-- A run of the link, with what the near end writes on the stream in it, in order.
pub data Run (id : ℕ) : Link → Link → List Bytes → Type 0 where
  rests : {l : Link} → Run id l l []
  goes_on :
      {l l' l'' : Link} {new : List Bytes} (step : Step l l')
      → Spares id l step
      → Run id l' l'' new
      → Run id l l'' (writing id l step ++ new)
