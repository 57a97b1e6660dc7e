-- ===== src/Mux/CarriedTests.antt =====
-- Witnesses of the theorems on a stream from end to end: one end opens it and writes, the other
-- reads.
use node_access.Prelude.{ℕ}
use node_access.Prelude.{◌≡◌, refl, false, none, List, [], ◌∷◌, ◌++◌, map, str, arith, nat_eq}
use node_access.HashMap.{get, insert}
use node_access.Mux.Frame.{open_frame, data_frame, socks}
use node_access.Mux.Streams.{fetch_stream_id}
use node_access.Mux.Reader.{chunks, payloads, dispatch_all, dispatch, send_to}
use node_access.Mux.Endpoint.{
  Endpoint, VirtualStream, start, open_stream, poll_write, poll_shutdown, send, into_stream, arrive,
}
use node_access.Mux.Link.{Link, opens, writes, apply, near_does, rests, goes_on, Carries, transit}
use node_access.Mux.Opening.{Reached, begins, follows, heard}
use node_access.Mux.Reading.{Event, comes, polls, concat, came, play, waiting}
use node_access.Mux.Reading.Emptying.{asks}
use node_access.Mux.Carried.{all_heard, fresh, written_is_read, close_follows_bytes}

abbrev stream : VirtualStream
stream = record { stream_id = 1; inbound = 0; read_buffer = []; sent_close = false }

abbrev near_open : Endpoint
near_open = record (start 1) {
  reader = record ((start 1).reader) { streams = (1, 0) ∷ []; channels = 1 };
  next_stream_id = 3;
  outbound = open_frame 1 socks ∷ data_frame 1 (str "hi") ∷ [];
}

-- One end has opened a stream and has written on it.
abbrev begun : Link
begun = record { near = near_open; far = start 2 }

begun-Reached : Reached begun
unfolding apply open_stream poll_write send start fetch_stream_id insert
begun-Reached =
    follows (follows begins (near_does (opens socks))) (near_does (writes stream (str "hi")))

abbrev opened : Link
opened = heard (open_frame 1 socks) (data_frame 1 (str "hi") ∷ []) begun

abbrev written_more : Link
written_more = record opened { near = apply (writes stream (str "!")) opened.near }

-- The first call comes before the second chunk.
abbrev events : List Event
events = comes (str "hi") ∷ polls 0 1 ∷ comes (str "!") ∷ []

abbrev rooms : List (ℕ × ℕ)
rooms = (0, 1) ∷ (0, 8) ∷ (2, 1) ∷ (0, 3) ∷ (0, 1) ∷ []

all_came :
    came false events ≡ chunks 0 (all_heard written_more.near.outbound written_more).far.reader.sent
unfolding apply poll_write send start dispatch_all dispatch send_to insert get arrive
all_came = refl

written_is_read_example :
    let r =
      play
        (events ++ map asks rooms)
        (fresh (into_stream (record { request = socks; stream_id = 1; inbound = 0 }))) in
    (r.0 ≡ concat (payloads 1 (data_frame 1 (str "hi") ∷ []) ++ str "!" ∷ [])) × (waiting r.1 ≡ [])
unfolding start
written_is_read_example =
    written_is_read begun written_more 1 socks (data_frame 1 (str "hi") ∷ []) (str "!" ∷ []) events
      rooms begun-Reached refl refl tt (goes_on (near_does (writes stream (str "!"))) tt rests)
      all_came (omega arith, (omega arith, (omega arith, (omega arith, (omega arith, tt)))))
      (omega arith)

-- The far end knows the stream, and a chunk is on its way.
abbrev carrying : Link
carrying = record {
  near = record near_open { outbound = data_frame 1 (str "hi") ∷ [] };
  far = record (start 2) {
    reader = record ((start 2).reader) { streams = (1, 0) ∷ []; channels = 1 };
  };
}

carrying-Carries : Carries 1 0 carrying
unfolding start get
carrying-Carries = record {
  owns = record { has = refl; known = omega arith; alone = λ j e. ground (arith, e) };
  untouched = tt;
  foreign = λ e. absurd (cc e);
}

close_follows_bytes_example :
    let l' = record carrying { near = (poll_shutdown stream carrying.near).1 } in
    let r = (all_heard l'.near.outbound l').far.reader in
    (chunks 0 r.sent ≡ transit 1 0 carrying) × (get 1 r.streams ≡ none)
unfolding start
close_follows_bytes_example =
    close_follows_bytes 1 0 carrying stream carrying-Carries refl refl refl
