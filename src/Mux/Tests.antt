-- ===== src/Mux/Tests.antt =====
-- Witnesses of the theorems on the multiplexer.
use node_access.Prelude.{
  ◌≡◌, ◌↔◌, refl, false, true, none, some, List, [], ◌∷◌, ◌++◌, str, length, arith, nat_eq,
}
use node_access.HashMap.{insert}
use node_access.Mux.Frame.{
  Bytes, MuxFrame, open_frame, data_frame, close_frame, control_frame, visit, socks, bind,
}
use node_access.Mux.Crypto.{FrameCrypto, from_secret, next_nonce, seal_all, next_nonce_by_count}
use node_access.Mux.Streams.{
  BringsNothing, fetch_stream_id, pending, poll_read, poll_read_spurious_end, ready_ok,
}
use node_access.Mux.Reader.{Reader, payloads, dispatch_all}
use node_access.Mux.Loops.{write_loop, read_loop, written, read_loop-write_loop}
use node_access.Mux.Endpoint.{VirtualStream, start, open_stream, send}
use node_access.Mux.Link.{Link, opens, writes, apply, near_does, transit, writing, rests, goes_on}
use node_access.Mux.Opening.{Reached, begins, follows, heard, opened_stream_delivers}
use node_access.Mux.Samples.{sample_requests, sample_messages, sample_aead}

abbrev visit_ssh : MuxFrame
visit_ssh = open_frame 1 (visit (str "ssh") (some (str "laptop")))

next_nonce_by_count_example :
    (next_nonce sample_aead
        (seal_all sample_aead (str "a" ∷ []) (from_secret sample_aead (str "key") 0 1))
      ≡ next_nonce sample_aead
          (seal_all sample_aead (str "b" ∷ []) (from_secret sample_aead (str "key") 0 1)))
    ↔ (length (str "a" ∷ []) ≡ length (str "b" ∷ []))
next_nonce_by_count_example =
    next_nonce_by_count sample_aead (str "key") 0 1 1 (str "a" ∷ []) (str "b" ∷ []) (omega arith)
      (omega arith)

poll_read_spurious_end_example :
    let read = poll_read 2 8 [] pending in
    (read.answer ≡ ready_ok) × ((read.put ≡ []) ↔ ((◌≡◌ {A = Bytes} [] []) × BringsNothing pending))
poll_read_spurious_end_example = poll_read_spurious_end 2 8 [] pending (omega arith) (omega arith)

-- Stream 1 is open.
abbrev reader : Reader
reader = record {
  streams = (1, 0) ∷ [];
  channels = 1;
  sent = [];
  incoming = [];
  control = [];
  closed = false;
}

abbrev frames : List MuxFrame
frames =
    data_frame 1 (str "a")
    ∷ open_frame 3 socks
    ∷ data_frame 3 (str "b")
    ∷ data_frame 1 (str "c")
    ∷ control_frame (bind (str "web") none)
    ∷ close_frame 3
    ∷ []

abbrev sender : FrameCrypto sample_aead
sender = from_secret sample_aead (str "key") 0 1

abbrev receiver : FrameCrypto sample_aead
receiver = from_secret sample_aead (str "key") 1 0

read_loop-write_loop_example :
    read_loop sample_requests sample_messages sample_aead
      (some receiver)
      (write_loop sample_requests sample_messages sample_aead (some sender) (visit_ssh ∷ frames))
      reader
    ≡ record (dispatch_all
        (written sample_requests sample_messages sample_aead (some sender) (visit_ssh ∷ frames))
        reader) { closed = true }
unfolding from_secret
read_loop-write_loop_example =
    read_loop-write_loop sample_requests sample_messages sample_aead (some sender) (some receiver)
      (visit_ssh ∷ frames) reader
      (record { same_key = refl; same_dir = refl; counter_fits = omega arith })
      (
        omega arith,
        (
          omega arith,
          (omega arith, (omega arith, (omega arith, (omega arith, (omega arith, tt))))),
        ),
      )

-- One end has opened a stream.
abbrev joined : Link
joined = record {
  near = record (start 1) {
    reader = record ((start 1).reader) { streams = (1, 0) ∷ []; channels = 1 };
    next_stream_id = 3;
    outbound = open_frame 1 socks ∷ [];
  };
  far = start 2;
}

joined-Reached : Reached joined
unfolding apply open_stream send start fetch_stream_id insert
joined-Reached = follows begins (near_does (opens socks))

abbrev stream : VirtualStream
stream = record { stream_id = 1; inbound = 0; read_buffer = []; sent_close = false }

opened_stream_delivers_example :
    let l = heard (open_frame 1 socks) [] joined in
    let l' = record l { near = apply (writes stream (str "hi")) l.near } in
    (l.far.reader.incoming
      ≡ joined.far.reader.incoming
        ++ record { request = socks; stream_id = 1; inbound = joined.far.reader.channels } ∷ [])
    × (transit 1 joined.far.reader.channels l'
        ≡ payloads 1 [] ++ (writing 1 l (near_does (writes stream (str "hi"))) ++ []))
opened_stream_delivers_example =
    let l = heard (open_frame 1 socks) [] joined in
    let l' = record l { near = apply (writes stream (str "hi")) l.near } in
    opened_stream_delivers joined l' 1 socks [] _ joined-Reached refl refl tt
      (goes_on (near_does (writes stream (str "hi"))) tt rests)
