-- ===== src/Mux/Link/Delivery.antt =====
-- Joined ends of crates/node-access-3role/src/mux.rs: what each step of theirs does to one stream.
use node_access.Prelude.{
  subst, ℕ, ◌+◌, ◌%◌, ◌≡◌, ◌≢◌, refl, sym, ap, ◌∙◌, Bool, true, false, Bool-cases, inl, inr, List,
  [], ◌∷◌, ◌++◌, append_assoc, append-nil, nat_eq, if◌then◌else◌, arith,
}
use node_access.HashMap.{insert, remove}
use node_access.Mux.Frame.{
  Bytes, MuxFrame, open_frame, data_frame, close_frame, control_frame, u32_mod,
}
use node_access.Mux.Streams.{fetch_stream_id}
use node_access.Mux.Reader.{
  dispatch, chunks, payloads, Untouched, Owns, Owns-open, Owns-close, Owns-data, Owns-control,
  dispatch-data,
}
use node_access.Mux.Endpoint.{
  Endpoint, VirtualStream, send, open_stream, send_control, poll_write, close_remote, drop_stream,
  arrive,
}
use node_access.Mux.Link.{
  Carries, Link, Op, Run, Spares, Step, apply, closes, drops, far_does, far_hears, goes_on,
  near_does, near_hears, opens, rests, tells, transit, writes, writing,
}

payloads-append :
    (id : ℕ) (fs gs : List MuxFrame) → payloads id (fs ++ gs) ≡ payloads id fs ++ payloads id gs
payloads-append id [] gs = refl
payloads-append id (open_frame j request ∷ fs) gs = payloads-append id fs gs
payloads-append id (data_frame j payload ∷ fs) gs = ground (arith, payloads-append id fs gs)
payloads-append id (close_frame j ∷ fs) gs = payloads-append id fs gs
payloads-append id (control_frame message ∷ fs) gs = payloads-append id fs gs

Untouched-append :
    (id : ℕ) (fs gs : List MuxFrame) → Untouched id fs → Untouched id gs → Untouched id (fs ++ gs)
Untouched-append id [] gs u v = v
Untouched-append id (open_frame j request ∷ fs) gs (n, u) v = (n, Untouched-append id fs gs u v)
Untouched-append id (data_frame j payload ∷ fs) gs u v = Untouched-append id fs gs u v
Untouched-append id (close_frame j ∷ fs) gs (n, u) v = (n, Untouched-append id fs gs u v)
Untouched-append id (control_frame message ∷ fs) gs u v = Untouched-append id fs gs u v

-- What a step has done to the stream.
abbrev Keeps : ℕ → ℕ → Link → List Bytes → Link → Type 0
Keeps id c l new l' = Carries id c l' × (transit id c l' ≡ transit id c l ++ new)

module _ (id c : ℕ) (l : Link) (carries : Carries id c l) where
  -- The near end puts a frame into its outbound channel.
  near_sends :
      (e : Endpoint) (f : MuxFrame)
      → e.outbound ≡ l.near.outbound
      → e.writer_open ≡ l.near.writer_open
      → Untouched id (f ∷ [])
      → Keeps id c l
          (if l.near.writer_open then payloads id (f ∷ []) else [])
          (record l { near = (send f e).1 })
  unfolding send
  near_sends e f o w u = elim (Bool-cases l.near.writer_open) [
    | inl y ↦
        rw (w, y, o)
          (
            record {
              owns = carries.owns;
              untouched = Untouched-append id l.near.outbound (f ∷ []) carries.untouched u;
              foreign = carries.foreign;
            },
            ap (λ (ps : List Bytes). chunks c l.far.reader.sent ++ ps)
                  (payloads-append id l.near.outbound (f ∷ []))
                ∙ sym (
                    append_assoc (chunks c l.far.reader.sent) (payloads id l.near.outbound)
                      (payloads id (f ∷ []))),
          )
    | inr y ↦
        rw (w, y, o)
          (
            record {
              owns = carries.owns;
              untouched = carries.untouched;
              foreign = carries.foreign;
            },
            sym (append-nil (transit id c l)),
          )
  ]

  silent : (b : Bool) (ps : List Bytes) → ps ≡ [] → (if b then ps else []) ≡ []
  silent true ps e = e
  silent false ps e = refl

  -- The near end sends a frame that is no data of the stream.
  near_sends_other :
      (e : Endpoint) (f : MuxFrame)
      → e.outbound ≡ l.near.outbound
      → e.writer_open ≡ l.near.writer_open
      → Untouched id (f ∷ [])
      → payloads id (f ∷ []) ≡ []
      → Keeps id c l [] (record l { near = (send f e).1 })
  near_sends_other e f o w u q =
      let k = near_sends e f o w u in
      (
        k.0,
        k.1
            ∙ ap (λ (ps : List Bytes). transit id c l ++ ps)
                (silent l.near.writer_open (payloads id (f ∷ [])) q),
      )

  stays : Keeps id c l [] l
  stays = (carries, sym (append-nil (transit id c l)))

  near_closes :
      (stream : VirtualStream)
      → stream.stream_id ≢ id
      → Keeps id c l [] (record l { near = (close_remote stream l.near).1 })
  unfolding close_remote
  near_closes stream ne = elim (Bool-cases stream.sent_close) [
    | inl y ↦ rw y stays
    | inr y ↦ rw y (near_sends_other l.near (close_frame stream.stream_id) refl refl (ne, tt) refl)
  ]

  -- Of the near end, only what waits to be sent counts.
  near_same :
      (x y : Endpoint) (new : List Bytes)
      → x.outbound ≡ y.outbound
      → Keeps id c l new (record l { near = x })
      → Keeps id c l new (record l { near = y })
  near_same x y new e (k, t) =
      let u : Untouched id y.outbound = rw (← e) (k.untouched) in
      (
        record { owns = k.owns; untouched = u; foreign = k.foreign },
        ap (λ (fs : List MuxFrame). chunks c l.far.reader.sent ++ payloads id fs) (sym e) ∙ t,
      )

  near_does-Keeps :
      (op : Op)
      → Spares id l (near_does op)
      → Keeps id c l (writing id l (near_does op)) (record l { near = apply op l.near })
  unfolding apply open_stream send_control poll_write drop_stream
  near_does-Keeps (opens request) ne =
      near_sends_other _ (open_frame l.near.next_stream_id request) refl refl (ne, tt) refl
  near_does-Keeps (tells message) ne =
      near_sends_other l.near (control_frame message) refl refl tt refl
  near_does-Keeps (writes stream payload) ne =
      near_sends l.near (data_frame stream.stream_id payload) refl refl tt
  near_does-Keeps (closes stream) ne = near_closes stream ne
  near_does-Keeps (drops stream) ne =
      near_same (close_remote stream l.near).1 (drop_stream stream l.near) [] refl
        (near_closes stream ne)

  -- Of the far end, its table, its channels and its next id.
  far_same :
      (x : Endpoint)
      → Owns id c x.reader
      → x.reader.sent ≡ l.far.reader.sent
      → id % 2 ≢ x.next_stream_id % 2
      → Keeps id c l [] (record l { far = x })
  far_same x o e p = (
    record { owns = o; untouched = carries.untouched; foreign = p },
    ap (λ (sent : List (ℕ × Bytes)). chunks c sent ++ payloads id l.near.outbound) e
        ∙ sym (append-nil (transit id c l)),
  )

  -- The far end sends a frame.
  far_sends :
      (x : Endpoint) (f : MuxFrame)
      → Owns id c x.reader
      → x.reader.sent ≡ l.far.reader.sent
      → id % 2 ≢ x.next_stream_id % 2
      → Keeps id c l [] (record l { far = (send f x).1 })
  unfolding send
  far_sends x f o e p = elim (Bool-cases x.writer_open) [
    | inl y ↦
        rw y (far_same (record x { outbound = x.outbound ++ f ∷ []; writer_open = true }) o e p)
    | inr y ↦ rw y (far_same (record x { writer_open = false }) o e p)
  ]

  far_closes :
      (stream : VirtualStream) → Keeps id c l [] (record l { far = (close_remote stream l.far).1 })
  unfolding close_remote
  far_closes stream = elim (Bool-cases stream.sent_close) [
    | inl y ↦ rw y stays
    | inr y ↦
        rw y (far_sends l.far (close_frame stream.stream_id) carries.owns refl carries.foreign)
  ]

  far_drops :
      (x : Endpoint) (j : ℕ)
      → j ≢ id
      → Keeps id c l [] (record l { far = x })
      → Keeps id c l [] (record l {
        far = record x { reader = record (x.reader) { streams = remove j x.reader.streams } };
      })
  far_drops x j ne (k, t) =
      let o = Owns-close id c j x.reader ne k.owns in
      (record { owns = unfold dispatch in o; untouched = k.untouched; foreign = k.foreign }, t)

  far_does-Keeps :
      (op : Op) → Spares id l (far_does op) → Keeps id c l [] (record l { far = apply op l.far })
  unfolding apply open_stream send_control poll_write drop_stream fetch_stream_id dispatch
  far_does-Keeps (opens request) s =
      let next = l.far.next_stream_id in
      let own =
        Owns-open id c next request l.far.reader (omega (arith, carries.foreign)) carries.owns in
      far_sends
        (record (l.far) {
          next_stream_id = (next + 2) % u32_mod;
          reader = record (l.far.reader) {
            streams = insert next l.far.reader.channels l.far.reader.streams;
            channels = l.far.reader.channels + 1;
          };
        })
        (open_frame next request) (record { has = own.has; known = own.known; alone = own.alone })
        refl (omega (arith, carries.foreign))
  far_does-Keeps (tells message) s =
      far_sends l.far (control_frame message) carries.owns refl carries.foreign
  far_does-Keeps (writes stream payload) s =
      far_sends l.far (data_frame stream.stream_id payload) carries.owns refl carries.foreign
  far_does-Keeps (closes stream) s = far_closes stream
  far_does-Keeps (drops stream) ne =
      far_drops (close_remote stream l.far).1 stream.stream_id ne (far_closes stream)

  -- A frame of the near end arrives.
  heard :
      (f : MuxFrame) (rest : List MuxFrame)
      → Untouched id (f ∷ rest)
      → Owns id c (dispatch f l.far.reader)
        × Untouched id rest
        × (chunks c (dispatch f l.far.reader).sent ++ payloads id rest
            ≡ chunks c l.far.reader.sent ++ payloads id (f ∷ rest))
  heard (open_frame j request) rest (ne, u) =
      (Owns-open id c j request l.far.reader ne carries.owns, u, unfold dispatch in refl)
  heard (data_frame j payload) rest u = (
    Owns-data id c j payload l.far.reader carries.owns,
    u,
    dispatch-data id c j payload (payloads id rest) l.far.reader carries.owns,
  )
  heard (close_frame j) rest (ne, u) =
      (Owns-close id c j l.far.reader ne carries.owns, u, unfold dispatch in refl)
  heard (control_frame message) rest u =
      (Owns-control id c message l.far.reader carries.owns, u, unfold dispatch in refl)

  Step-Keeps :
      {l' : Link} (step : Step l l') → Spares id l step → Keeps id c l (writing id l step) l'
  unfolding arrive
  Step-Keeps (near_does op) s = near_does-Keeps op s
  Step-Keeps (far_does op) s = far_does-Keeps op s
  Step-Keeps (near_hears f rest e) s = (
    record { owns = carries.owns; untouched = carries.untouched; foreign = carries.foreign },
    sym (append-nil (transit id c l)),
  )
  Step-Keeps (far_hears f rest e) s =
      let u : Untouched id (f ∷ rest) = subst (Untouched id) e carries.untouched in
      let (o, v, t) = heard f rest u in
      (
        record { owns = o; untouched = v; foreign = carries.foreign },
        t
            ∙ ap (λ (fs : List MuxFrame). chunks c l.far.reader.sent ++ payloads id fs) (sym e)
            ∙ sym (append-nil (transit id c l)),
      )

-- Once the far end has its channel for a stream, it gets exactly what the near end writes on the
-- stream, in order, through every interleaving of what the two ends do on this and other streams
-- with the arrival of frames: what its channel has got and what is on the way are what they were
-- before, and then what has been written. This holds as long as the near end neither gives the id
-- out again nor closes or drops the stream, and the far end does not drop it.
pub Run-delivers :
    {id : ℕ} {l l' : Link} {new : List Bytes} (c : ℕ)
    → Run id l l' new
    → Carries id c l
    → Carries id c l' × (transit id c l' ≡ transit id c l ++ new)
Run-delivers {id} {l} c rests k = (k, sym (append-nil (transit id c l)))
Run-delivers {id} {l} c (goes_on {l' = l1} {new = new} step s run) k =
    let (k1, t1) = Step-Keeps id c l k step s in
    let (k2, t2) = Run-delivers c run k1 in
    (
      k2,
      t2
          ∙ ap (λ (ps : List Bytes). ps ++ new) t1
          ∙ append_assoc (transit id c l) (writing id l step) new,
    )
