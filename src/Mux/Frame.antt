-- ===== src/Mux/Frame.antt =====
-- The frames of crates/node-access-3role/src/mux.rs and their encoding. A byte is a number below
-- 256.
use node_access.Prelude.{
  ◌∙◌, Bool, ℕ, ◌+◌, ◌*◌, ◌/◌, ◌%◌, ◌^◌, ◌<◌, ◌≡◌, refl, Option, none, some, List, [], ◌∷◌, Text,
  if◌then◌else◌, eqb, arith, ap,
}

abbrev pub Bytes : Type 0
Bytes = List ℕ

pub data OpenRequest : Type 0 where
  socks : OpenRequest
  visit : Text → Option Text → OpenRequest
  provider_connect : Text → OpenRequest

pub data ControlMessage : Type 0 where
  bind : Text → Option Text → ControlMessage
  bind_ack : Text → Bool → Option Text → ControlMessage
  info : Text → ControlMessage

pub data MuxFrame : Type 0 where
  open_frame : ℕ → OpenRequest → MuxFrame
  data_frame : ℕ → Bytes → MuxFrame
  close_frame : ℕ → MuxFrame
  control_frame : ControlMessage → MuxFrame

-- `serde_json::to_vec` and `serde_json::from_slice` at a type that derives both.
pub record Serde (A : Type 0) : Type 0 where
  pub to_vec : A → Option Bytes
  pub from_slice : Bytes → Option A
  pub from_slice-to_vec : (a : A) (b : Bytes) → to_vec a ≡ some b → from_slice b ≡ some a

-- `u32::to_be_bytes`, in front of what follows, and `u32::from_be_bytes`.
abbrev pub u32_mod : ℕ
u32_mod = 2 ^ 32

unfoldable pub put_u32 : ℕ → Bytes → Bytes
put_u32 x rest = (x / 2 ^ 24 % 256) ∷ (x / 2 ^ 16 % 256) ∷ (x / 2 ^ 8 % 256) ∷ (x % 256) ∷ rest

unfoldable pub u32_from_be : ℕ → ℕ → ℕ → ℕ → ℕ
u32_from_be a b c d = a * 2 ^ 24 + b * 2 ^ 16 + c * 2 ^ 8 + d

pub u32_from_be-put_u32 :
    (x : ℕ)
    → x < u32_mod
    → u32_from_be (x / 2 ^ 24 % 256) (x / 2 ^ 16 % 256) (x / 2 ^ 8 % 256) (x % 256) ≡ x
unfolding u32_from_be
u32_from_be-put_u32 x h = omega arith

-- The errors of `decode_frame`.
pub data DecodeError : Type 0 where
  too_short invalid_open invalid_control : DecodeError
  unknown_type : ℕ → DecodeError

pub data Decoded : Type 0 where
  ok : MuxFrame → Decoded
  err : DecodeError → Decoded

module _ (requests : Serde OpenRequest) (messages : Serde ControlMessage) where
  with_payload : ℕ → ℕ → Option Bytes → Option Bytes
  unfolding put_u32
  with_payload kind id none = none
  with_payload kind id (some payload) = some (kind ∷ put_u32 id payload)

  -- `none` is the error of `serde_json`.
  unfoldable pub encode_frame : MuxFrame → Option Bytes
  unfolding with_payload
  encode_frame (open_frame id request) = with_payload 1 id (requests.to_vec request)
  encode_frame (data_frame id payload) = with_payload 2 id (some payload)
  encode_frame (close_frame id) = with_payload 3 id (some [])
  encode_frame (control_frame message) = with_payload 4 0 (messages.to_vec message)

  opened : ℕ → Option OpenRequest → Decoded
  opened id none = err invalid_open
  opened id (some request) = ok (open_frame id request)

  controlled : Option ControlMessage → Decoded
  controlled none = err invalid_control
  controlled (some message) = ok (control_frame message)

  decode_kind : ℕ → ℕ → Bytes → Decoded
  unfolding opened controlled
  decode_kind kind id payload =
      if eqb kind 1
      then opened id (requests.from_slice payload)
      else if eqb kind 2
      then ok (data_frame id payload)
      else if eqb kind 3
      then ok (close_frame id)
      else if eqb kind 4
      then controlled (messages.from_slice payload)
      else err (unknown_type kind)

  unfoldable pub decode_frame : Bytes → Decoded
  unfolding decode_kind u32_from_be
  decode_frame (kind ∷ a ∷ b ∷ c ∷ d ∷ payload) = decode_kind kind (u32_from_be a b c d) payload
  decode_frame _ = err too_short

  -- The stream of a frame; control frames have none.
  abbrev pub frame_stream : MuxFrame → ℕ
  frame_stream (open_frame id request) = id
  frame_stream (data_frame id payload) = id
  frame_stream (close_frame id) = id
  frame_stream (control_frame message) = 0

  decode_frame-header :
      (kind id : ℕ) (payload : Bytes)
      → id < u32_mod
      → decode_frame (kind ∷ put_u32 id payload) ≡ decode_kind kind id payload
  unfolding decode_frame put_u32
  decode_frame-header kind id payload h =
      ap (λ (i : ℕ). decode_kind kind i payload) (u32_from_be-put_u32 id h)

  -- Decoding what `with_payload` has made.
  decode_frame-with_payload :
      (kind id : ℕ) (payload : Option Bytes) (bytes : Bytes)
      → id < u32_mod
      → with_payload kind id payload ≡ some bytes
      → (p : Bytes) × (payload ≡ some p) × (decode_frame bytes ≡ decode_kind kind id p)
  unfolding with_payload
  decode_frame-with_payload kind id none bytes h e = absurd (cc e)
  decode_frame-with_payload kind id (some p) bytes h e =
      let q : kind ∷ put_u32 id p ≡ bytes = cc e in
      (p, refl, rw (← q) (decode_frame-header kind id p h))

  -- A frame whose stream id is a `u32` decodes to itself from what it is encoded to.
  pub decode_frame-encode_frame :
      (f : MuxFrame) (bytes : Bytes)
      → frame_stream f < u32_mod
      → encode_frame f ≡ some bytes
      → decode_frame bytes ≡ ok f
  unfolding encode_frame decode_kind
  decode_frame-encode_frame (open_frame id request) bytes h e =
      let (p, q, d) = decode_frame-with_payload 1 id (requests.to_vec request) bytes h e in
      d ∙ rw (requests.from_slice-to_vec request p q, opened)
  decode_frame-encode_frame (data_frame id payload) bytes h e =
      let (p, q, d) = decode_frame-with_payload 2 id (some payload) bytes h e in
      let r : payload ≡ p = cc q in d ∙ rw (← r)
  decode_frame-encode_frame (close_frame id) bytes h e =
      let (p, q, d) = decode_frame-with_payload 3 id (some []) bytes h e in d
  decode_frame-encode_frame (control_frame message) bytes h e =
      let (p, q, d) = decode_frame-with_payload 4 0 (messages.to_vec message) bytes h e in
      d ∙ rw (messages.from_slice-to_vec message p q, controlled)
