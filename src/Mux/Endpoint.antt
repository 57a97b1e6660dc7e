-- ===== src/Mux/Endpoint.antt =====
-- One end of a multiplexed connection: `MuxConnection::start`, `MuxHandle` and `VirtualStream` of
-- crates/node-access-3role/src/mux.rs. What waits in the `outbound` channel is in the end's state;
-- a send on it is an error once the write loop has ended.
use node_access.Prelude.{
  ℕ, ◌+◌, Bool, true, false, Option, none, some, List, [], ◌∷◌, ◌++◌, nat_eq, length, if◌then◌else◌,
}
use node_access.HashMap.{insert, remove}
use node_access.Mux.Frame.{
  Bytes, OpenRequest, ControlMessage, MuxFrame, open_frame, data_frame, close_frame, control_frame,
}
use node_access.Mux.Streams.{fetch_stream_id}
use node_access.Mux.Reader.{Reader, IncomingStream, dispatch}

pub record Endpoint : Type 0 where
  pub reader : Reader
  pub next_stream_id : ℕ
  pub outbound : List MuxFrame
  pub writer_open : Bool

unfoldable pub start : ℕ → Endpoint
start first_stream_id = record {
  reader = record {
    streams = [];
    channels = 0;
    sent = [];
    incoming = [];
    control = [];
    closed = false;
  };
  next_stream_id = first_stream_id;
  outbound = [];
  writer_open = true;
}

pub record VirtualStream : Type 0 where
  pub stream_id : ℕ
  pub inbound : ℕ
  pub read_buffer : Bytes
  pub sent_close : Bool

unfoldable pub new_stream : ℕ → ℕ → VirtualStream
new_stream stream_id inbound = record {
  stream_id = stream_id;
  inbound = inbound;
  read_buffer = [];
  sent_close = false;
}

-- The stream that the read loop has made of an `Open` frame.
unfoldable pub into_stream : IncomingStream → VirtualStream
unfolding new_stream
into_stream s = new_stream s.stream_id s.inbound

-- `outbound.send(..)`: whether it succeeds.
unfoldable pub send : MuxFrame → Endpoint → Bool × Endpoint
send f e =
    if e.writer_open then (true, record e { outbound = e.outbound ++ f ∷ [] }) else (false, e)

-- The entry is in the table also where the send fails.
unfoldable pub open_stream : OpenRequest → Endpoint → Option VirtualStream × Endpoint
unfolding send fetch_stream_id new_stream
open_stream request e =
    let stream_id = e.next_stream_id in
    let tx = e.reader.channels in
    let e1 = record e {
      next_stream_id = (fetch_stream_id stream_id).1;
      reader = record (e.reader) {
        streams = insert stream_id tx e.reader.streams;
        channels = tx + 1;
      };
    } in
    let r = send (open_frame stream_id request) e1 in
    (if r.0 then some (new_stream stream_id tx) else none, r.1)

unfoldable pub send_control : ControlMessage → Endpoint → Bool × Endpoint
unfolding send
send_control message e = send (control_frame message) e

-- The number of bytes that are taken, all of them, or the error `BrokenPipe`.
unfoldable pub poll_write : VirtualStream → Bytes → Endpoint → Option ℕ × Endpoint
unfolding send
poll_write stream payload e =
    let r = send (data_frame stream.stream_id payload) e in
    (if r.0 then some (length payload) else none, r.1)

unfoldable pub close_remote : VirtualStream → Endpoint → VirtualStream × Endpoint
unfolding send
close_remote stream e =
    if stream.sent_close
    then (stream, e)
    else (record stream { sent_close = true }, (send (close_frame stream.stream_id) e).1)

unfoldable pub poll_shutdown : VirtualStream → Endpoint → VirtualStream × Endpoint
unfolding close_remote
poll_shutdown stream e = close_remote stream e

-- The drop of a stream, the task that it spawns included.
unfoldable pub drop_stream : VirtualStream → Endpoint → Endpoint
unfolding close_remote
drop_stream stream e =
    let e1 = (close_remote stream e).1 in
    record e1 {
      reader = record (e1.reader) { streams = remove stream.stream_id e1.reader.streams };
    }

-- The read loop hands a frame on.
unfoldable pub arrive : MuxFrame → Endpoint → Endpoint
arrive f e = record e { reader = dispatch f e.reader }
