-- ===== src/Mux/Opening.antt =====
-- Joined ends of crates/node-access-3role/src/mux.rs from their start: what their tables hold, and
-- a stream from the arrival of its `Open` frame.
use node_access.Prelude.{All-snoc}
use node_access.Prelude.{
  ◌⊎◌, ℕ, ◌+◌, ◌%◌, ◌<◌, ◌≡◌, refl, sym, ap, ◌∙◌, true, false, Bool-cases, Option-cases, inl, inr,
  some, List, [], ◌∷◌, ◌++◌, nat_eq, ◌==◌, arith, All, subst, eq_self,
}
use node_access.HashMap.{get, insert}
use node_access.HashMap.Laws.{get-insert}
use node_access.HashMap.Entries.{
  Entries, Entries-insert, Entries-remove, Entries-get, Entries-weaken,
}
use node_access.Mux.Frame.{
  Bytes, OpenRequest, MuxFrame, open_frame, data_frame, close_frame, control_frame,
}
use node_access.Mux.Streams.{fetch_stream_id}
use node_access.Mux.Reader.{Reader, dispatch, send_to, chunks, payloads, Untouched}
use node_access.Mux.Endpoint.{
  Endpoint, VirtualStream, start, send, open_stream, send_control, poll_write, close_remote,
  drop_stream, arrive,
}
use node_access.Mux.Link.Delivery.{Run-delivers}
use node_access.Mux.Link.{
  Op, opens, tells, writes, closes, drops, apply, Link, Step, near_does, far_does, near_hears,
  far_hears, Run, Carries, transit,
}

-- The channels of the table and those that have been sent to are ones that there have been.
pub record Tidy (r : Reader) : Type 0 where
  pub tabled : Entries (λ (id : ℕ) (tx : ℕ). tx < r.channels) r.streams
  pub reached : All (λ (m : ℕ × Bytes). m.0 < r.channels) r.sent

below_next :
    (k : ℕ) (sent : List (ℕ × Bytes))
    → All (λ (m : ℕ × Bytes). m.0 < k) sent
    → All (λ (m : ℕ × Bytes). m.0 < k + 1) sent
below_next k [] h = tt
below_next k (m ∷ sent) (h, hs) = (omega (arith, h), below_next k sent hs)

Tidy-new :
    (id : ℕ) (r : Reader)
    → Tidy r
    → Tidy (record r { streams = insert id r.channels r.streams; channels = r.channels + 1 })
Tidy-new id r t = record {
  tabled =
      Entries-insert _ id r.channels r.streams (omega arith)
        (Entries-weaken _ _ r.streams (λ k v h. omega (arith, h)) t.tabled);
  reached = below_next r.channels r.sent t.reached;
}

dispatch-Tidy : (f : MuxFrame) (r : Reader) → Tidy r → Tidy (dispatch f r)
unfolding dispatch send_to
dispatch-Tidy (open_frame id request) r t =
    let n = Tidy-new id r t in record { tabled = n.tabled; reached = n.reached }
dispatch-Tidy (data_frame id payload) r t = elim (Option-cases (get id r.streams)) [
  | inl e ↦ rw (e, send_to) t
  | inr (tx, e) ↦
      rw (e, send_to)
        (record {
          tabled = t.tabled;
          reached =
              All-snoc _ r.sent (tx, payload) t.reached (Entries-get _ id r.streams t.tabled e);
        })
]
dispatch-Tidy (close_frame id) r t = record {
  tabled = Entries-remove _ id r.streams t.tabled;
  reached = t.reached;
}
dispatch-Tidy (control_frame message) r t = record { tabled = t.tabled; reached = t.reached }

send-reader :
    (f : MuxFrame) (e : Endpoint)
    → ((send f e).1.reader ≡ e.reader) × ((send f e).1.next_stream_id ≡ e.next_stream_id)
unfolding send
send-reader f e = elim (Bool-cases e.writer_open) [
  | inl y ↦ rw y (refl, refl)
  | inr y ↦ rw y (refl, refl)
]

-- An end is tidy, and gives out ids of its kind.
abbrev pub Fine : ℕ → Endpoint → Type 0
Fine kind e = Tidy e.reader × (e.next_stream_id % 2 ≡ kind)

send-Fine : (kind : ℕ) (f : MuxFrame) (e : Endpoint) → Fine kind e → Fine kind (send f e).1
send-Fine kind f e (t, p) =
    let (r, n) = send-reader f e in (subst Tidy (sym r) t, ap (λ (i : ℕ). i % 2) n ∙ p)

close-Fine :
    (kind : ℕ) (stream : VirtualStream) (e : Endpoint)
    → Fine kind e
    → Fine kind (close_remote stream e).1
unfolding close_remote
close-Fine kind stream e h = elim (Bool-cases stream.sent_close) [
  | inl y ↦ rw y h
  | inr y ↦ rw y (send-Fine kind (close_frame stream.stream_id) e h)
]

apply-Fine : (kind : ℕ) (op : Op) (e : Endpoint) → kind < 2 → Fine kind e → Fine kind (apply op e)
unfolding apply open_stream send_control poll_write drop_stream fetch_stream_id
apply-Fine kind (opens request) e k (t, p) =
    send-Fine kind (open_frame e.next_stream_id request) _
      (Tidy-new e.next_stream_id e.reader t, omega (arith, p))
apply-Fine kind (tells message) e k h = send-Fine kind (control_frame message) e h
apply-Fine kind (writes stream payload) e k h =
    send-Fine kind (data_frame stream.stream_id payload) e h
apply-Fine kind (closes stream) e k h = close-Fine kind stream e h
apply-Fine kind (drops stream) e k h =
    let (t, p) = close-Fine kind stream e h in
    (
      record {
        tabled =
            Entries-remove _ stream.stream_id (close_remote stream e).1.reader.streams t.tabled;
        reached = t.reached;
      },
      p,
    )

-- The links that come of an end that gives out odd ids and one that gives out even ones.
pub data Reached : Link → Type 0 where
  begins : Reached (record { near = start 1; far = start 2 })
  follows : {l l' : Link} → Reached l → Step l l' → Reached l'

Step-Fine :
    {l l' : Link} → Step l l' → Fine 1 l.near × Fine 0 l.far → Fine 1 l'.near × Fine 0 l'.far
unfolding arrive
Step-Fine {l} (near_does op) (a, b) = (apply-Fine 1 op l.near (omega arith) a, b)
Step-Fine {l} (far_does op) (a, b) = (a, apply-Fine 0 op l.far (omega arith) b)
Step-Fine {l} (near_hears f rest e) (a, b) = ((dispatch-Tidy f l.near.reader a.0, a.1), b)
Step-Fine {l} (far_hears f rest e) (a, b) = (a, (dispatch-Tidy f l.far.reader b.0, b.1))

-- In every state of the link the tables and what has been sent name channels that there have been,
-- the near end gives out odd ids and the far end even ones.
pub Reached-Fine : {l : Link} → Reached l → Fine 1 l.near × Fine 0 l.far
unfolding start
Reached-Fine begins =
    ((record { tabled = tt; reached = tt }, refl), (record { tabled = tt; reached = tt }, refl))
Reached-Fine (follows r step) = Step-Fine step (Reached-Fine r)

chunks_none :
    (k : ℕ) (sent : List (ℕ × Bytes)) → All (λ (m : ℕ × Bytes). m.0 < k) sent → chunks k sent ≡ []
chunks_none k [] h = refl
chunks_none k ((tx, payload) ∷ sent) (h, hs) = ground (arith, chunks_none k sent hs, h)

-- The link once the oldest frame of the near end has arrived.
abbrev pub heard : MuxFrame → List MuxFrame → Link → Link
heard f rest l = record { near = record (l.near) { outbound = rest }; far = arrive f l.far }

opened-Carries :
    (l : Link) (id : ℕ) (request : OpenRequest) (rest : List MuxFrame)
    → Fine 0 l.far
    → id % 2 ≡ 1
    → Untouched id rest
    → Carries id l.far.reader.channels (heard (open_frame id request) rest l)
unfolding arrive dispatch
opened-Carries l id request rest (t, p) odd u =
    let r = l.far.reader in
    record {
      owns = record {
        has = rw (get-insert id id r.channels r.streams, eq_self id) refl;
        known = omega arith;
        alone = λ j e. sole j (Bool-cases (id == j)) e;
      };
      untouched = u;
      foreign = omega (arith, p, odd);
    }
  where
    sole :
        (j : ℕ)
        → ((id == j) ≡ true) ⊎ ((id == j) ≡ false)
        → get j (insert id l.far.reader.channels l.far.reader.streams) ≡ some l.far.reader.channels
        → j ≡ id
    sole j (inl y) e = ground (arith, y)
    sole j (inr y) e =
        let g : get j l.far.reader.streams ≡ some l.far.reader.channels =
          rw (get-insert id j l.far.reader.channels l.far.reader.streams, y) at e in
        let lt : l.far.reader.channels < l.far.reader.channels =
          Entries-get _ j l.far.reader.streams t.tabled g in
        absurd (omega (arith, lt))

-- When the `Open` frame of a stream with an id of the near end's own arrives, in any state that
-- joined ends come to, the far end is handed the stream with a new channel, and from then on,
-- through every run that spares the stream, what that channel has got and what is on the way are
-- together exactly what the near end has written on the stream behind the `Open` frame: what was
-- already on its way, then what the run writes.
pub opened_stream_delivers :
    (l l' : Link) (id : ℕ) (request : OpenRequest) (rest : List MuxFrame) (new : List Bytes)
    → Reached l
    → l.near.outbound ≡ open_frame id request ∷ rest
    → id % 2 ≡ 1
    → Untouched id rest
    → Run id (heard (open_frame id request) rest l) l' new
    → let c = l.far.reader.channels in
      ((heard (open_frame id request) rest l).far.reader.incoming
        ≡ l.far.reader.incoming ++ record { request = request; stream_id = id; inbound = c } ∷ [])
      × (transit id c l' ≡ payloads id rest ++ new)
unfolding arrive dispatch
opened_stream_delivers l l' id request rest new reached e odd u run =
    let c = l.far.reader.channels in
    let fine = Reached-Fine reached in
    let k = opened-Carries l id request rest fine.1 odd u in
    let (k', t) = Run-delivers c run k in
    (
      refl,
      t
          ∙ ap (λ (ps : List Bytes). (ps ++ payloads id rest) ++ new)
              (chunks_none c l.far.reader.sent fine.1.0.reached),
    )
