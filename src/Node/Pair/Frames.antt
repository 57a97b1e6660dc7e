-- ===== src/Node/Pair/Frames.antt =====
-- Which requests and messages an end of crates/node-access-3role/src/mux.rs sends and has been
-- told.
use node_access.Prelude.{All-snoc}
use node_access.Prelude.{
  ◌+◌, ◌≡◌, sym, subst, ap, Bool-cases, Option, Option-cases, none, some, inl, inr, List, [], ◌∷◌,
  All, nat_eq,
}
use node_access.HashMap.{get, insert}
use node_access.Mux.Frame.{
  OpenRequest, ControlMessage, MuxFrame, open_frame, data_frame, close_frame, control_frame,
}
use node_access.Mux.Streams.{fetch_stream_id}
use node_access.Mux.Reader.{Reader, IncomingStream, dispatch, send_to}
use node_access.Mux.Endpoint.{
  Endpoint, VirtualStream, send, open_stream, send_control, poll_write, close_remote, drop_stream,
}
use node_access.Node.Select.{first_stream, recv_stream, first_message, recv_message}
use node_access.Mux.Link.{Op, opens, tells, writes, closes, drops, apply}

-- A frame whose request or message is of the kind.
abbrev pub Fits : (OpenRequest → Type 0) → (ControlMessage → Type 0) → MuxFrame → Type 0
Fits R M (open_frame stream_id request) = R request
Fits R M (data_frame stream_id payload) = Unit
Fits R M (close_frame stream_id) = Unit
Fits R M (control_frame message) = M message

module _ (R : OpenRequest → Type 0) (M : ControlMessage → Type 0) where
  abbrev pub Sends : Endpoint → Type 0
  Sends e = All (Fits R M) e.outbound

  pub record Told (r : Reader) : Type 0 where
    pub opened : All (λ s. R s.request) r.incoming
    pub messages : All M r.control

  pub send-Sends : (f : MuxFrame) (e : Endpoint) → Fits R M f → Sends e → Sends (send f e).1
  unfolding send
  send-Sends f e fits h = elim (Bool-cases e.writer_open) [
    | inl y ↦ rw y (All-snoc (Fits R M) e.outbound f h fits)
    | inr y ↦ rw y h
  ]

  pub close_remote-Sends :
      (stream : VirtualStream) (e : Endpoint) → Sends e → Sends (close_remote stream e).1
  unfolding close_remote
  close_remote-Sends stream e h = elim (Bool-cases stream.sent_close) [
    | inl y ↦ rw y h
    | inr y ↦ rw y (send-Sends (close_frame stream.stream_id) e tt h)
  ]

  -- What an end does on its own.
  abbrev pub Does : Op → Type 0
  Does (opens request) = R request
  Does (tells message) = M message
  Does _ = Unit

  pub apply-Sends : (op : Op) (e : Endpoint) → Does op → Sends e → Sends (apply op e)
  unfolding apply open_stream send_control poll_write drop_stream
  apply-Sends (opens request) e fits h = send-Sends (open_frame e.next_stream_id request) _ fits h
  apply-Sends (tells message) e fits h = send-Sends (control_frame message) e fits h
  apply-Sends (writes stream payload) e fits h =
      send-Sends (data_frame stream.stream_id payload) e tt h
  apply-Sends (closes stream) e fits h = close_remote-Sends stream e h
  apply-Sends (drops stream) e fits h = close_remote-Sends stream e h

  pub dispatch-Told : (f : MuxFrame) (r : Reader) → Fits R M f → Told r → Told (dispatch f r)
  unfolding dispatch send_to
  dispatch-Told (open_frame stream_id request) r fits t = record {
    opened = All-snoc (λ s. R s.request) r.incoming _ t.opened fits;
    messages = t.messages;
  }
  dispatch-Told (data_frame stream_id payload) r fits t =
      elim (Option-cases (get stream_id r.streams)) [
        | inl e ↦ rw (e, send_to) t
        | inr (tx, e) ↦ rw (e, send_to) (record { opened = t.opened; messages = t.messages })
      ]
  dispatch-Told (close_frame stream_id) r fits t = record {
    opened = t.opened;
    messages = t.messages;
  }
  dispatch-Told (control_frame message) r fits t = record {
    opened = t.opened;
    messages = All-snoc M r.control message t.messages fits;
  }

  Told-same : {r s : Reader} → s.incoming ≡ r.incoming → s.control ≡ r.control → Told r → Told s
  Told-same {r} {s} i c t = record { opened = rw i (t.opened); messages = rw c (t.messages) }

  send-Told : (f : MuxFrame) (e : Endpoint) → Told e.reader → Told (send f e).1.reader
  unfolding send
  send-Told f e t = elim (Bool-cases e.writer_open) [ inl y ↦ rw y t | inr y ↦ rw y t ]

  close_remote-Told :
      (stream : VirtualStream) (e : Endpoint)
      → Told e.reader
      → Told (close_remote stream e).1.reader
  unfolding close_remote
  close_remote-Told stream e t = elim (Bool-cases stream.sent_close) [
    | inl y ↦ rw y t
    | inr y ↦ rw y (send-Told (close_frame stream.stream_id) e t)
  ]

  pub apply-Told : (op : Op) (e : Endpoint) → Told e.reader → Told (apply op e).reader
  unfolding apply open_stream send_control poll_write drop_stream
  apply-Told (opens request) e t =
      let e1 : Endpoint = record e {
        next_stream_id = (fetch_stream_id e.next_stream_id).1;
        reader = record (e.reader) {
          streams = insert e.next_stream_id e.reader.channels e.reader.streams;
          channels = e.reader.channels + 1;
        };
      } in
      send-Told (open_frame e.next_stream_id request) e1
        (record { opened = t.opened; messages = t.messages })
  apply-Told (tells message) e t = send-Told (control_frame message) e t
  apply-Told (writes stream payload) e t = send-Told (data_frame stream.stream_id payload) e t
  apply-Told (closes stream) e t = close_remote-Told stream e t
  apply-Told (drops stream) e t =
      let c = close_remote-Told stream e t in record { opened = c.opened; messages = c.messages }

  -- An end that sends and has been told what is of the kinds.
  pub first_stream-Told :
      (e : Endpoint) (streams : List IncomingStream) (stream : IncomingStream) (rest : Endpoint)
      → first_stream streams e ≡ some (stream, rest)
      → Told (record (e.reader) { incoming = streams })
      → R stream.request × Told rest.reader × (rest.outbound ≡ e.outbound)
  unfolding first_stream
  first_stream-Told e [] stream rest q t = absurd (cc q)
  first_stream-Told e (x ∷ xs) stream rest q t =
      let same_stream : x ≡ stream =
        ap (λ (o : Option (IncomingStream × Endpoint)). elim o [ none ↦ x | some p ↦ p.0 ]) q in
      let same : record e { reader = record (e.reader) { incoming = xs } } ≡ rest =
        ap (λ (o : Option (IncomingStream × Endpoint)). elim o [ none ↦ e | some p ↦ p.1 ]) q in
      (
        subst (λ (s : IncomingStream). R s.request) same_stream t.opened.0,
        subst (λ (e : Endpoint). Told e.reader) same
            (record { opened = t.opened.1; messages = t.messages }),
        ap (λ (e : Endpoint). e.outbound) (sym same),
      )

  pub recv_stream-Told :
      (e : Endpoint) (stream : IncomingStream) (rest : Endpoint)
      → recv_stream e ≡ some (stream, rest)
      → Told e.reader
      → R stream.request × Told rest.reader × (rest.outbound ≡ e.outbound)
  unfolding recv_stream
  recv_stream-Told e stream rest q t = first_stream-Told e e.reader.incoming stream rest q t

  first_message-Told :
      (e : Endpoint) (messages : List ControlMessage) (message : ControlMessage) (rest : Endpoint)
      → first_message messages e ≡ some (message, rest)
      → Told (record (e.reader) { control = messages })
      → M message × Told rest.reader × (rest.outbound ≡ e.outbound)
  unfolding first_message
  first_message-Told e [] message rest q t = absurd (cc q)
  first_message-Told e (x ∷ xs) message rest q t =
      let same_message : x ≡ message =
        ap (λ (o : Option (ControlMessage × Endpoint)). elim o [ none ↦ x | some p ↦ p.0 ]) q in
      let same : record e { reader = record (e.reader) { control = xs } } ≡ rest =
        ap (λ (o : Option (ControlMessage × Endpoint)). elim o [ none ↦ e | some p ↦ p.1 ]) q in
      (
        subst M same_message t.messages.0,
        subst (λ (e : Endpoint). Told e.reader) same
            (record { opened = t.opened; messages = t.messages.1 }),
        ap (λ (e : Endpoint). e.outbound) (sym same),
      )

  pub recv_message-Told :
      (e : Endpoint) (message : ControlMessage) (rest : Endpoint)
      → recv_message e ≡ some (message, rest)
      → Told e.reader
      → M message × Told rest.reader × (rest.outbound ≡ e.outbound)
  unfolding recv_message
  recv_message-Told e message rest q t = first_message-Told e e.reader.control message rest q t
