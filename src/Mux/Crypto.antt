-- ===== src/Mux/Crypto.antt =====
-- crates/node-access-3role/src/crypto.rs, and the wrapping of encrypted frames in the write and the
-- read loop of mux.rs. The cipher and the digest are third-party code.
use node_access.Prelude.{
  ◌↔◌, ℕ, ◌+◌, ◌*◌, ◌/◌, ◌%◌, ◌^◌, ◌<◌, ◌≡◌, refl, sym, ap, ◌∙◌, Option, none, some, List, [], ◌∷◌,
  Text, if◌then◌else◌, eqb, arith, length,
}
use node_access.Mux.Frame.{Bytes}

-- AES-256-GCM under a 12-byte nonce, and the SHA-256 digest that makes its key.
pub record Aead : Type 1 where
  pub Key : Type 0
  pub digest : Text → Key
  pub encrypt : Key → Bytes → Bytes → Option Bytes
  pub decrypt : Key → Bytes → Bytes → Option Bytes
  pub decrypt-encrypt :
      (key : Key) (nonce plaintext ciphertext : Bytes)
      → encrypt key nonce plaintext ≡ some ciphertext
      → decrypt key nonce ciphertext ≡ some plaintext

abbrev pub u64_mod : ℕ
u64_mod = 2 ^ 64

-- `u64::to_be_bytes` in front of what follows, and `u64::from_be_bytes`.
unfoldable pub put_u64 : ℕ → Bytes → Bytes
put_u64 x rest =
    (x / 2 ^ 56 % 256)
    ∷ (x / 2 ^ 48 % 256)
    ∷ (x / 2 ^ 40 % 256)
    ∷ (x / 2 ^ 32 % 256)
    ∷ (x / 2 ^ 24 % 256)
    ∷ (x / 2 ^ 16 % 256)
    ∷ (x / 2 ^ 8 % 256)
    ∷ (x % 256)
    ∷ rest

unfoldable pub u64_from_be : ℕ → ℕ → ℕ → ℕ → ℕ → ℕ → ℕ → ℕ → ℕ
u64_from_be a b c d e f g h =
    a * 2 ^ 56 + b * 2 ^ 48 + c * 2 ^ 40 + d * 2 ^ 32 + e * 2 ^ 24 + f * 2 ^ 16 + g * 2 ^ 8 + h

pub u64_from_be-put_u64 :
    (x : ℕ)
    → x < u64_mod
    → u64_from_be
        (x / 2 ^ 56 % 256)
        (x / 2 ^ 48 % 256)
        (x / 2 ^ 40 % 256)
        (x / 2 ^ 32 % 256)
        (x / 2 ^ 24 % 256)
        (x / 2 ^ 16 % 256)
        (x / 2 ^ 8 % 256)
        (x % 256)
      ≡ x
unfolding u64_from_be
u64_from_be-put_u64 x h = omega arith

-- Byte 0 is the direction, bytes 4 to 11 are the counter, the others stay 0.
unfoldable pub make_nonce : ℕ → ℕ → Bytes
unfolding put_u64
make_nonce direction counter = direction ∷ 0 ∷ 0 ∷ 0 ∷ put_u64 counter []

abbrev nonce_direction : Bytes → ℕ
nonce_direction [] = 0
nonce_direction (d ∷ rest) = d

abbrev nonce_counter : Bytes → ℕ
nonce_counter (_ ∷ _ ∷ _ ∷ _ ∷ a ∷ b ∷ c ∷ d ∷ e ∷ f ∷ g ∷ h ∷ rest) = u64_from_be a b c d e f g h
nonce_counter _ = 0

-- Different directions or counters have different nonces.
pub make_nonce-injective :
    (d e x y : ℕ) → x < u64_mod → y < u64_mod → make_nonce d x ≡ make_nonce e y → (d ≡ e) × (x ≡ y)
unfolding make_nonce
make_nonce-injective d e x y hx hy h = (
  ap nonce_direction h,
  sym (u64_from_be-put_u64 x hx) ∙ ap nonce_counter h ∙ u64_from_be-put_u64 y hy,
)

module _ (aead : Aead) where
  open aead use {Key, digest, encrypt, decrypt, decrypt-encrypt}

  -- The clones of a `FrameCrypto` share its counter.
  pub record FrameCrypto : Type 0 where
    pub key : Key
    pub outbound_dir : ℕ
    pub inbound_dir : ℕ
    pub outbound_counter : ℕ

  unfoldable pub from_secret : Text → ℕ → ℕ → FrameCrypto
  from_secret secret outbound_dir inbound_dir = record {
    key = digest secret;
    outbound_dir = outbound_dir;
    inbound_dir = inbound_dir;
    outbound_counter = 0;
  }

  -- `fetch_add` wraps; the counter is taken also where the cipher fails.
  unfoldable pub seal : FrameCrypto → Bytes → Option (ℕ × Bytes) × FrameCrypto
  seal c plaintext =
      let counter = c.outbound_counter in
      (
        (elim (encrypt c.key (make_nonce c.outbound_dir counter) plaintext) [
          | none ↦ none
          | some ciphertext ↦ some (counter, ciphertext)
        ]),
        record c { outbound_counter = (counter + 1) % u64_mod },
      )

  unfoldable pub open_sealed : FrameCrypto → ℕ → Bytes → Option Bytes
  open_sealed c counter ciphertext = decrypt c.key (make_nonce c.inbound_dir counter) ciphertext

  abbrev pub frame_encrypted : ℕ
  frame_encrypted = 0xe1

  wrapped : Option (ℕ × Bytes) → Option Bytes
  unfolding put_u64
  wrapped none = none
  wrapped (some (counter, ciphertext)) = some (frame_encrypted ∷ put_u64 counter ciphertext)

  -- What the write loop makes of an encoded frame: `none` where it breaks off.
  unfoldable pub wrap : Option FrameCrypto → Bytes → Option Bytes × Option FrameCrypto
  unfolding wrapped
  wrap none bytes = (some bytes, none)
  wrap (some c) bytes = let r = seal c bytes in (wrapped r.0, some r.1)

  -- What the read loop makes of a binary message: `none` where it breaks off. A message has the
  -- mark and eight bytes of counter at least.
  unfoldable pub unwrap : Option FrameCrypto → Bytes → Option Bytes
  unfolding u64_from_be
  unwrap none bytes = some bytes
  unwrap (some crypto) (mark ∷ a ∷ b ∷ c ∷ d ∷ e ∷ f ∷ g ∷ h ∷ ciphertext) =
      if eqb mark frame_encrypted
      then open_sealed crypto (u64_from_be a b c d e f g h) ciphertext
      else none
  unwrap (some crypto) _ = none

  -- Two ends that agree: they have the same key, and what one sends out the other reads as coming
  -- in.
  pub record Paired (sender receiver : FrameCrypto) : Type 0 where
    pub same_key : sender.key ≡ receiver.key
    pub same_dir : sender.outbound_dir ≡ receiver.inbound_dir
    pub counter_fits : sender.outbound_counter < u64_mod

  unwrap-wrapped :
      (sender receiver : FrameCrypto) (bytes : Bytes) (o : Option Bytes) (sent : Bytes)
      → Paired sender receiver
      → encrypt sender.key (make_nonce sender.outbound_dir sender.outbound_counter) bytes ≡ o
      → wrapped (elim o [ none ↦ none | some c ↦ some (sender.outbound_counter, c) ]) ≡ some sent
      → unwrap (some receiver) sent ≡ some bytes
  unfolding wrapped unwrap open_sealed put_u64
  unwrap-wrapped sender receiver bytes none sent p q e = absurd (cc e)
  unwrap-wrapped sender receiver bytes (some c) sent p q e =
      let counter = sender.outbound_counter in
      let s : frame_encrypted ∷ put_u64 counter c ≡ sent = cc e in
      let opened : decrypt receiver.key (make_nonce receiver.inbound_dir counter) c ≡ some bytes =
        rw (← p.same_key, ← p.same_dir)
          (decrypt-encrypt sender.key (make_nonce sender.outbound_dir counter) bytes c q) in
      rw (← s) (
        ap (λ (i : ℕ). open_sealed receiver i c) (u64_from_be-put_u64 counter p.counter_fits)
        ∙ opened)

  -- Whatever the write loop sends of a frame that it encrypts, the read loop of the paired end
  -- takes for that frame.
  pub unwrap-wrap :
      (sender receiver : FrameCrypto) (bytes sent : Bytes)
      → Paired sender receiver
      → (wrap (some sender) bytes).0 ≡ some sent
      → unwrap (some receiver) sent ≡ some bytes
  unfolding wrap seal
  unwrap-wrap sender receiver bytes sent p e = unwrap-wrapped sender receiver bytes _ sent p refl e

  -- The sealer after a row of frames.
  unfoldable pub seal_all : List Bytes → FrameCrypto → FrameCrypto
  seal_all [] c = c
  seal_all (bytes ∷ rest) c = seal_all rest (seal c bytes).1

  -- The nonce of the next frame.
  unfoldable pub next_nonce : FrameCrypto → Bytes
  next_nonce c = make_nonce c.outbound_dir c.outbound_counter

  seal_all-state :
      (rest : List Bytes) (c : FrameCrypto)
      → c.outbound_counter + length rest < u64_mod
      → (seal_all rest c).outbound_counter ≡ c.outbound_counter + length rest
  unfolding seal_all seal
  seal_all-state [] c h = omega arith
  seal_all-state (bytes ∷ rest) c h =
      let e : (c.outbound_counter + 1) % u64_mod ≡ c.outbound_counter + 1 = omega arith in
      omega (arith, seal_all-state rest (seal c bytes).1, e)

  seal_all-dir :
      (rest : List Bytes) (c : FrameCrypto) → (seal_all rest c).outbound_dir ≡ c.outbound_dir
  unfolding seal_all seal
  seal_all-dir [] c = refl
  seal_all-dir (bytes ∷ rest) c = seal_all-dir rest (seal c bytes).1

  -- Two connections that have the same secret and direction use the same nonce for their next
  -- frames exactly when they have sealed equally many frames: within one connection no nonce comes
  -- twice, and every connection begins with the nonces of the one before. (Under 2^64 frames.)
  pub next_nonce_by_count :
      (secret : Text) (d e e' : ℕ) (ps qs : List Bytes)
      → length ps < u64_mod
      → length qs < u64_mod
      → (next_nonce (seal_all ps (from_secret secret d e))
          ≡ next_nonce (seal_all qs (from_secret secret d e')))
        ↔ (length ps ≡ length qs)
  unfolding next_nonce from_secret
  next_nonce_by_count secret d e e' ps qs hp hq =
      let a = from_secret secret d e in
      let b = from_secret secret d e' in
      let ca : (seal_all ps a).outbound_counter ≡ length ps =
        seal_all-state ps a (omega arith) ∙ omega arith in
      let cb : (seal_all qs b).outbound_counter ≡ length qs =
        seal_all-state qs b (omega arith) ∙ omega arith in
      (
        λ h.
            sym ca
            ∙ (make_nonce-injective _ _ _ _ (omega (arith, ca)) (omega (arith, cb)) h).1
            ∙ cb,
        λ h. rw (seal_all-dir ps a, seal_all-dir qs b, ca, cb, h),
      )
