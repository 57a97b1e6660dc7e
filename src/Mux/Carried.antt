-- ===== src/Mux/Carried.antt =====
-- A stream of crates/node-access-3role/src/mux.rs from end to end: what one end writes on it and
-- what the calls of `poll_read` give at the other.
use node_access.Mux.Reader.{dispatch_all-demultiplexes}
use node_access.Mux.Frame.{close_frame}
use node_access.Prelude.{nat_eq, none}
use node_access.Prelude.{true}
use node_access.Mux.Link.{Carries}
use node_access.Mux.Endpoint.{send}
use node_access.Mux.Endpoint.{close_remote}
use node_access.Mux.Endpoint.{poll_shutdown}
use node_access.Mux.Reader.{Reader}
use node_access.Mux.Link.{writing}
use node_access.Prelude.{append_assoc}
use node_access.Prelude.{false}
use node_access.Prelude.{
  ℕ, ◌<◌, ◌≤◌, ◌%◌, ◌≡◌, refl, sym, ap, subst, ◌∙◌, List, [], ◌∷◌, ◌++◌, append-nil, map, All,
  length, arith,
}
use node_access.HashMap.{get}
use node_access.HashMap.Laws.{get-remove_self}
use node_access.Mux.Frame.{Bytes, OpenRequest, MuxFrame, open_frame}
use node_access.Mux.Reader.{dispatch, dispatch_all, chunks, payloads, Untouched}
use node_access.Mux.Endpoint.{VirtualStream, into_stream, arrive}
use node_access.Mux.Link.{Link, Run, rests, goes_on, far_hears, transit}
use node_access.Mux.Opening.{Reached, heard, opened_stream_delivers}
use node_access.Mux.Reading.{Inbound, concat, Event, came, play, waiting}
use node_access.Mux.Reading.Emptying.{asks, calls, reads_all}

-- The link once all frames of the near end have arrived.
abbrev pub all_heard : List MuxFrame → Link → Link
all_heard frames l = record {
  near = record (l.near) { outbound = [] };
  far = record (l.far) { reader = dispatch_all frames l.far.reader };
}

-- The frames that wait can arrive one after the other, while nothing is written.
pub all_heard-Run :
    (id : ℕ) (frames : List MuxFrame) (l : Link)
    → l.near.outbound ≡ frames
    → Run id l (all_heard frames l) []
unfolding dispatch_all arrive
all_heard-Run id [] l e =
    subst
      (λ (o : List MuxFrame). Run id l (record l { near = record (l.near) { outbound = o } }) []) e
      rests
all_heard-Run id (f ∷ frames) l e =
    goes_on (far_hears f frames e) tt (all_heard-Run id frames (heard f frames l) refl)

Run-follow :
    {id : ℕ} {l l' l'' : Link} {new more : List Bytes}
    → Run id l l' new
    → Run id l' l'' more
    → Run id l l'' (new ++ more)
Run-follow rests after = after
Run-follow {id} {l} {l'' = l''} {more = more} (goes_on {new = new} step s run) after =
    subst (Run id l l'') (sym (append_assoc (writing id l step) new more))
      (goes_on step s (Run-follow run after))

-- A stream whose channel is new.
abbrev pub fresh : VirtualStream → Inbound
fresh stream = record { read_buffer = stream.read_buffer; queue = []; ended = false }

-- What the near end has written on a stream that it opened is what the far end reads from it, each
-- byte once and in order, through every run of the joined ends that spares the stream, and however
-- the calls of `poll_read` and the arrivals in the stream's channel follow each other: once the
-- frames that wait have arrived, enough further calls with room, one for each byte and for each
-- write, have put them all.
pub written_is_read :
    (l l' : Link) (id : ℕ) (request : OpenRequest) (rest : List MuxFrame) (new : List Bytes)
    (es : List Event) (rooms : List (ℕ × ℕ))
    → Reached l
    → l.near.outbound ≡ open_frame id request ∷ rest
    → id % 2 ≡ 1
    → Untouched id rest
    → Run id (heard (open_frame id request) rest l) l' new
    → (let m = all_heard l'.near.outbound l' in
        came false es ≡ chunks l.far.reader.channels m.far.reader.sent)
    → All (λ (call : ℕ × ℕ). 0 < call.1) rooms
    → (let written = payloads id rest ++ new in calls (concat written) written ≤ length rooms)
    → let stream =
        into_stream
          (record { request = request; stream_id = id; inbound = l.far.reader.channels }) in
      let r = play (es ++ map asks rooms) (fresh stream) in
      (r.0 ≡ concat (payloads id rest ++ new)) × (waiting r.1 ≡ [])
unfolding into_stream
written_is_read l l' id request rest new es rooms reached e odd u run all positive bound =
    let m = all_heard l'.near.outbound l' in
    let on = Run-follow run (all_heard-Run id l'.near.outbound l' refl) in
    let delivered = (opened_stream_delivers l m id request rest (new ++ []) reached e odd u on).1 in
    let written = payloads id rest ++ new in
    let same : came false es ≡ written =
      all
      ∙ sym (append-nil _)
      ∙ delivered
      ∙ ap (λ (ps : List Bytes). payloads id rest ++ ps) (append-nil new) in
    let enough =
      subst (λ (ps : List Bytes). calls (concat ps) ps ≤ length rooms) (sym same) bound in
    let (out, left) =
      reads_all es rooms (record { read_buffer = []; queue = []; ended = false }) positive
        (omega (arith, enough)) in
    (out ∙ ap concat same, left)

pub dispatch_all-append :
    (fs : List MuxFrame) (f : MuxFrame) (r : Reader)
    → dispatch_all (fs ++ f ∷ []) r ≡ dispatch f (dispatch_all fs r)
unfolding dispatch_all
dispatch_all-append [] f r = refl
dispatch_all-append (x ∷ fs) f r = dispatch_all-append fs f (dispatch x r)

-- The shutdown of a stream overtakes nothing: once the frames that wait have arrived, the far end's
-- channel has got everything that it had got and that was on its way, and the stream is out of the
-- far end's table, which drops the sender of the channel.
pub close_follows_bytes :
    (id c : ℕ) (l : Link) (stream : VirtualStream)
    → Carries id c l
    → l.near.writer_open ≡ true
    → stream.stream_id ≡ id
    → stream.sent_close ≡ false
    → let l' = record l { near = (poll_shutdown stream l.near).1 } in
      let r = (all_heard l'.near.outbound l').far.reader in
      (chunks c r.sent ≡ transit id c l) × (get id r.streams ≡ none)
unfolding poll_shutdown close_remote send dispatch
close_follows_bytes id c l stream k w same unsent =
    let before = dispatch_all l.near.outbound l.far.reader in
    rw (unsent, w, same, dispatch_all-append l.near.outbound (close_frame id) l.far.reader)
      (
        dispatch_all-demultiplexes id c l.near.outbound l.far.reader k.owns k.untouched,
        get-remove_self id before.streams,
      )
