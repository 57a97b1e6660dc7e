-- ===== src/Mux/Loops.antt =====
-- `write_loop` and `read_loop` of crates/node-access-3role/src/mux.rs: the one makes messages of
-- the frames of all streams, the other takes them apart.
use node_access.Prelude.{
  All, inr, ◌∙◌, inl, Option-cases, arith, ◌<◌, ◌≡◌, refl, true, Option, none, some, List, [], ◌∷◌,
  nat_eq,
}
use node_access.Mux.Frame.{
  Bytes, OpenRequest, ControlMessage, MuxFrame, Serde, Decoded, ok, err, encode_frame, decode_frame,
  frame_stream, u32_mod, decode_frame-encode_frame,
}
use node_access.Mux.Crypto.{Aead, FrameCrypto, wrap, unwrap, Paired, unwrap-wrap, seal}
use node_access.Mux.Reader.{Reader, dispatch, dispatch_all}

-- A message of the WebSocket: an error, a binary one, or one of another kind.
pub data WsMessage : Type 0 where
  failed other : WsMessage
  binary : Bytes → WsMessage

module _ (requests : Serde OpenRequest) (messages : Serde ControlMessage) (aead : Aead) where
  abbrev decode : Bytes → Decoded
  decode = decode_frame requests messages

  -- `write_loop` on the frames it gets, while the socket takes every message: a frame that cannot
  -- be encoded is passed over, and where the cipher fails the loop breaks.
  unfoldable pub write_loop : Option (FrameCrypto aead) → List MuxFrame → List WsMessage
  write_loop crypto [] = []
  write_loop crypto (f ∷ fs) = elim (encode_frame requests messages f) [
    | none ↦ write_loop crypto fs
    | some bytes ↦ elim ((wrap aead crypto bytes).0) [
      | none ↦ []
      | some sent ↦ binary sent ∷ write_loop (wrap aead crypto bytes).1 fs
    ]
  ]

  unfoldable pub read_loop : Option (FrameCrypto aead) → List WsMessage → Reader → Reader
  read_loop crypto [] r = record r { closed = true }
  read_loop crypto (failed ∷ ms) r = record r { closed = true }
  read_loop crypto (other ∷ ms) r = read_loop crypto ms r
  read_loop crypto (binary bytes ∷ ms) r = elim (unwrap aead crypto bytes) [
    | none ↦ record r { closed = true }
    | some plaintext ↦ elim (decode plaintext) [
      | err error ↦ record r { closed = true }
      | ok f ↦ read_loop crypto ms (dispatch f r)
    ]
  ]

  -- The frames that `write_loop` makes messages of: those that can be encoded, up to the first one
  -- on which the cipher fails.
  unfoldable pub written : Option (FrameCrypto aead) → List MuxFrame → List MuxFrame
  written crypto [] = []
  written crypto (f ∷ fs) = elim (encode_frame requests messages f) [
    | none ↦ written crypto fs
    | some bytes ↦ elim ((wrap aead crypto bytes).0) [
      | none ↦ []
      | some sent ↦ f ∷ written (wrap aead crypto bytes).1 fs
    ]
  ]

  -- Two ends without a secret, or with the same one and opposite directions.
  abbrev pub Agree : Option (FrameCrypto aead) → Option (FrameCrypto aead) → Type 0
  Agree none none = Unit
  Agree (some sender) (some receiver) = Paired aead sender receiver
  Agree _ _ = ⊥

  Agree-wrap :
      (sender receiver : Option (FrameCrypto aead)) (bytes : Bytes)
      → Agree sender receiver
      → Agree (wrap aead sender bytes).1 receiver
  unfolding wrap seal
  Agree-wrap none none bytes a = tt
  Agree-wrap none (some receiver) bytes a = elim a [ ]
  Agree-wrap (some sender) none bytes a = elim a [ ]
  Agree-wrap (some sender) (some receiver) bytes a = record {
    same_key = a.same_key;
    same_dir = a.same_dir;
    counter_fits = omega arith;
  }

  Agree-unwrap :
      (sender receiver : Option (FrameCrypto aead)) (bytes sent : Bytes)
      → Agree sender receiver
      → (wrap aead sender bytes).0 ≡ some sent
      → unwrap aead receiver sent ≡ some bytes
  Agree-unwrap none none bytes sent a e = unfold wrap unwrap in cc e
  Agree-unwrap none (some receiver) bytes sent a e = elim a [ ]
  Agree-unwrap (some sender) none bytes sent a e = elim a [ ]
  Agree-unwrap (some sender) (some receiver) bytes sent a e =
      unwrap-wrap aead sender receiver bytes sent a e

  pub skipped :
      (sender : Option (FrameCrypto aead)) (f : MuxFrame) (fs : List MuxFrame)
      → encode_frame requests messages f ≡ none
      → (write_loop sender (f ∷ fs) ≡ write_loop sender fs)
        × (written sender (f ∷ fs) ≡ written sender fs)
  unfolding write_loop written
  skipped sender f fs e = (rw (write_loop, e), rw (written, e))

  pub broken_off :
      (sender : Option (FrameCrypto aead)) (f : MuxFrame) (fs : List MuxFrame) (bytes : Bytes)
      → encode_frame requests messages f ≡ some bytes
      → (wrap aead sender bytes).0 ≡ none
      → (write_loop sender (f ∷ fs) ≡ []) × (written sender (f ∷ fs) ≡ [])
  unfolding write_loop written
  broken_off sender f fs bytes e w = (rw (write_loop, e, w), rw (written, e, w))

  pub written_on :
      (sender : Option (FrameCrypto aead)) (f : MuxFrame) (fs : List MuxFrame) (bytes sent : Bytes)
      → encode_frame requests messages f ≡ some bytes
      → (wrap aead sender bytes).0 ≡ some sent
      → let sender' = (wrap aead sender bytes).1 in
        (write_loop sender (f ∷ fs) ≡ binary sent ∷ write_loop sender' fs)
        × (written sender (f ∷ fs) ≡ f ∷ written sender' fs)
  unfolding write_loop written
  written_on sender f fs bytes sent e w = (rw (write_loop, e, w), rw (written, e, w))

  read_frame :
      (receiver : Option (FrameCrypto aead)) (f : MuxFrame) (ms : List WsMessage) (r : Reader)
      (bytes sent : Bytes)
      → unwrap aead receiver sent ≡ some bytes
      → decode_frame requests messages bytes ≡ ok f
      → read_loop receiver (binary sent ∷ ms) r ≡ read_loop receiver ms (dispatch f r)
  unfolding read_loop
  read_frame receiver f ms r bytes sent u d = rw (read_loop, u, d)

  -- An end that agrees with the other on the secret reads what the other writes as the frames that
  -- it has written, and hands each of them on, in order, with their bytes; then the connection is
  -- closed.
  pub read_loop-write_loop :
      (sender receiver : Option (FrameCrypto aead)) (frames : List MuxFrame) (r : Reader)
      → Agree sender receiver
      → All (λ f. frame_stream requests messages f < u32_mod) frames
      → read_loop receiver (write_loop sender frames) r
        ≡ record (dispatch_all (written sender frames) r) { closed = true }
  read_loop-write_loop sender receiver [] r a k =
      unfold read_loop write_loop written dispatch_all in refl
  read_loop-write_loop sender receiver (f ∷ fs) r a (k, ks) =
      elim (Option-cases (encode_frame requests messages f)) [
        | inl e ↦
            let (m, v) = skipped sender f fs e in
            rw (m, v) (read_loop-write_loop sender receiver fs r a ks)
        | inr (bytes, e) ↦ elim (Option-cases ((wrap aead sender bytes).0)) [
          | inl w ↦
              let (m, v) = broken_off sender f fs bytes e w in
              rw (m, v) (unfold read_loop dispatch_all in refl)
          | inr (sent, w) ↦
              let (m, v) = written_on sender f fs bytes sent e w in
              let sender' = (wrap aead sender bytes).1 in
              let rest =
                read_loop-write_loop sender' receiver fs (dispatch f r)
                  (Agree-wrap sender receiver bytes a) ks in
              let opened =
                read_frame receiver f (write_loop sender' fs) r bytes sent
                  (Agree-unwrap sender receiver bytes sent a w)
                  (decode_frame-encode_frame requests messages f bytes k e) in
              rw (m, v) (opened ∙ rest ∙ (unfold dispatch_all in refl))
        ]
      ]
