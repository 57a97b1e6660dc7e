-- ===== src/Socks/Shapes.antt =====
-- The bytes of a SOCKS5 client, as RFC 1928 has them and crates/node-access-3role/src/socks.rs takes
-- them, and what the answers to them tell.
use node_access.Prelude.{
  ℕ, zero, suc, ◌+◌, ◌≡◌, ◌≢◌, ◌<◌, ◌⊎◌, inl, inr, Option, Option-cases, none, some, true, false,
  [], ◌∷◌, ◌++◌, Text, eqb, if◌then◌else◌, length, arith,
}
use node_access.Mux.Frame.{Bytes}
use node_access.Socks.{
  Stream, SocksError, unexpected_eof, broken_pipe, not_connect, not_utf8, bad_version,
  bad_request_version, bad_address_type, connect_failed, Host, split_at, reply, byte, ipv4_text,
  target_of,
}

abbrev pub greeting : Bytes
greeting = 5 ∷ 0 ∷ []

-- The bytes are a greeting with its methods, and then the rest.
abbrev pub Greets : Bytes → Bytes → Type 0
Greets bytes rest = (methods : Bytes) × (bytes ≡ 5 ∷ length methods ∷ (methods ++ rest))

-- The bytes that an address of a type takes, if these are its first.
unfoldable pub host_len : ℕ → Bytes → ℕ
host_len t addr =
    if eqb t 1 then 4 else if eqb t 3 then 1 + byte 0 addr else if eqb t 4 then 16 else 0

abbrev pub Known : ℕ → Type 0
Known t = (t ≡ 1) ⊎ ((t ≡ 3) ⊎ (t ≡ 4))

abbrev behind_first : Bytes → Bytes
behind_first [] = []
behind_first (b ∷ bytes) = bytes

module _ (host : Host) where
  -- The name of an address.
  unfoldable pub host_name : ℕ → Bytes → Option Text
  host_name t addr =
      if eqb t 1
      then some (ipv4_text addr)
      else if eqb t 3
      then host.from_utf8 (behind_first addr)
      else if eqb t 4
      then some (host.ipv6_text addr)
      else none

  -- The bytes ask for a connection to a target, and then come the rest.
  abbrev pub Asks : Bytes → Text → Bytes → Type 0
  Asks bytes target rest =
      (r t : ℕ) × (addr : Bytes) × (p q : ℕ) × (name : Text) × Greets bytes
        (5 ∷ 1 ∷ r ∷ t ∷ (addr ++ p ∷ q ∷ rest))
      × (length addr ≡ host_len t addr)
      × (host_name t addr ≡ some name)
      × (target ≡ target_of host name (p ∷ q ∷ []))

  -- The bytes end within the greeting, or within the request.
  abbrev pub CutGreeting : Bytes → Type 0
  CutGreeting bytes =
      (length bytes < 2) ⊎ ((m : ℕ) × (rest : Bytes) × (bytes ≡ 5 ∷ m ∷ rest) × (length rest < m))

  abbrev pub CutRequest : Bytes → Type 0
  CutRequest request =
      (length request < 4)
      ⊎ ((r t : ℕ) × (rest : Bytes) × (request ≡ 5 ∷ 1 ∷ r ∷ t ∷ rest)
          × Known t
          × (length rest < host_len t rest + 2))

  -- The client's bytes and what has been written, where each error ends the handshake.
  abbrev pub Answers : Bytes → SocksError → Bytes → Type 0
  Answers bytes unexpected_eof out =
      ((out ≡ []) × CutGreeting bytes)
      ⊎ ((out ≡ greeting) × (request : Bytes) × Greets bytes request × CutRequest request)
  Answers bytes broken_pipe out = ⊥
  Answers bytes not_connect out =
      (out ≡ greeting ++ reply 7)
      × (c r t : ℕ) × (rest : Bytes) × Greets bytes (5 ∷ c ∷ r ∷ t ∷ rest)
      × (c ≢ 1)
  Answers bytes not_utf8 out =
      (out ≡ greeting)
      × (r t : ℕ) × (addr rest : Bytes) × Greets bytes (5 ∷ 1 ∷ r ∷ t ∷ (addr ++ rest))
      × (t ≡ 3)
      × (length addr ≡ host_len t addr)
      × (host_name t addr ≡ none)
  Answers bytes (bad_version v) out =
      (out ≡ []) × (v ≢ 5) × (m : ℕ) × (rest : Bytes) × (bytes ≡ v ∷ m ∷ rest)
  Answers bytes (bad_request_version v) out =
      (out ≡ greeting)
      × (v ≢ 5)
      × (c r t : ℕ) × (rest : Bytes) × Greets bytes (v ∷ c ∷ r ∷ t ∷ rest)
  Answers bytes (bad_address_type t) out =
      (out ≡ greeting ++ reply 8)
      × (r : ℕ) × (rest : Bytes) × Greets bytes (5 ∷ 1 ∷ r ∷ t ∷ rest)
      × (¬ (Known t))
  Answers bytes (connect_failed target) out =
      (out ≡ greeting ++ reply 5)
      × (rest : Bytes) × Asks bytes target rest
      × (host.connects target ≡ false)

  -- Where the stream is joined with a target, which gets the bytes that are left.
  abbrev pub Served : Bytes → Text → Stream → Type 0
  Served bytes target s =
      (s.written ≡ greeting ++ reply 0)
      × Asks bytes target s.incoming
      × (host.connects target ≡ true)

pub split_at-none : (n : ℕ) (bytes : Bytes) → split_at n bytes ≡ none → length bytes < n
unfolding split_at
split_at-none zero bytes e = absurd (cc e)
split_at-none (suc n) [] e = omega arith
split_at-none (suc n) (b ∷ bytes) e = elim (Option-cases (split_at n bytes)) [
  | inl h ↦ omega (arith, split_at-none n bytes h)
  | inr ((front, rest), h) ↦ absurd (ground (arith, e, h))
]

pub split_at-some :
    (n : ℕ) (bytes front rest : Bytes)
    → split_at n bytes ≡ some (front, rest)
    → (length front ≡ n) × (bytes ≡ front ++ rest)
unfolding split_at
split_at-some zero bytes front rest e = ground (arith, e)
split_at-some (suc n) [] front rest e = absurd (cc e)
split_at-some (suc n) (b ∷ bytes) front rest e = elim (Option-cases (split_at n bytes)) [
  | inl h ↦ absurd (ground (arith, e, h))
  | inr ((first, last), h) ↦
      let (n_first, same) = split_at-some n bytes first last h in
      ground (arith, e, h, n_first, same)
]

-- More bytes do not change what an address takes.
pub host_len-append :
    (t : ℕ) (addr rest : Bytes)
    → length addr ≡ host_len t addr
    → host_len t (addr ++ rest) ≡ length addr
unfolding host_len
host_len-append t [] rest e = ground (arith, e)
host_len-append t (b ∷ addr) rest e = ground (arith, e)
