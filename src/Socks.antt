-- ===== src/Socks.antt =====
-- `serve_socks5` of crates/node-access-3role/src/socks.rs: the handshake on one stream, up to the
-- copying between the stream and the TCP connection that it ends in.
pub mod Requests
pub mod Shapes
pub mod Addresses
pub mod Answers
mod Tests
use node_access.Prelude.{
  ℕ, zero, suc, ◌+◌, ◌*◌, ◌-◌, Bool, true, false, not, Option, none, some, List, [], ◌∷◌, ◌++◌,
  Text, str, eqb, if◌then◌else◌, to_string,
}
use node_access.Mux.Frame.{Bytes}

-- The stream: the bytes that still come before its end, what has been written, and how many more
-- writes succeed.
pub record Stream : Type 0 where
  pub incoming : Bytes
  pub written : Bytes
  pub writes_left : ℕ

pub data SocksError : Type 0 where
  unexpected_eof broken_pipe not_connect not_utf8 : SocksError
  bad_version bad_request_version bad_address_type : ℕ → SocksError
  connect_failed : Text → SocksError

pub data Step (A : Type 0) : Type 0 where
  done : A → Step A
  failed : SocksError → Step A

abbrev pub Socks : Type 0 → Type 0
Socks A = Stream → Step A × Stream

abbrev pub and_then : {A B : Type 0} → Step A × Stream → (A → Socks B) → Step B × Stream
and_then (done a, s) f = f a s
and_then (failed e, s) f = (failed e, s)

infixl 5 ◌>>=◌
abbrev pub ◌>>=◌ : {A B : Type 0} → Socks A → (A → Socks B) → Socks B
(m >>= f) s = and_then (m s) f

abbrev pub pure : {A : Type 0} → A → Socks A
pure a s = (done a, s)

abbrev pub fail : {A : Type 0} → SocksError → Socks A
fail e s = (failed e, s)

-- The first bytes and what is left behind them, if there are as many.
unfoldable pub split_at : ℕ → Bytes → Option (Bytes × Bytes)
split_at zero bytes = some ([], bytes)
split_at (suc n) [] = none
split_at (suc n) (b ∷ bytes) = elim (split_at n bytes) [
  | none ↦ none
  | some (front, rest) ↦ some (b ∷ front, rest)
]

unfoldable pub read_exact : ℕ → Socks Bytes
unfolding split_at
read_exact n s = elim (split_at n s.incoming) [
  | none ↦ (failed unexpected_eof, record s { incoming = [] })
  | some (front, rest) ↦ (done front, record s { incoming = rest })
]

unfoldable pub write_left : Bytes → ℕ → Socks (Unit {0})
write_left bytes zero s = (failed broken_pipe, s)
write_left bytes (suc n) s = (done tt, record s { written = s.written ++ bytes; writes_left = n })

unfoldable pub write_all : Bytes → Socks (Unit {0})
unfolding write_left
write_all bytes s = write_left bytes s.writes_left s

abbrev pub reply : ℕ → Bytes
reply code = 5 ∷ code ∷ 0 ∷ 1 ∷ 0 ∷ 0 ∷ 0 ∷ 0 ∷ 0 ∷ 0 ∷ []

unfoldable pub send_reply : ℕ → Socks (Unit {0})
unfolding write_all
send_reply code = write_all (reply code)

-- `let _ = send_reply(..)`: an error is passed over.
unfoldable pub try_reply : ℕ → Socks (Unit {0})
unfolding send_reply
try_reply code s = (done tt, (send_reply code s).1)

-- The byte of an array that has been read.
abbrev pub byte : ℕ → Bytes → ℕ
byte i [] = 0
byte zero (b ∷ bytes) = b
byte (suc i) (b ∷ bytes) = byte i bytes

-- `Ipv4Addr`'s print.
unfoldable pub ipv4_text : Bytes → Text
unfolding to_string
ipv4_text addr =
    to_string (byte 0 addr)
    ++ (str "."
        ++ (to_string (byte 1 addr)
            ++ (str "." ++ (to_string (byte 2 addr) ++ (str "." ++ to_string (byte 3 addr))))))

-- What the standard library makes of bytes, and whether a TCP connection to a target comes about.
pub record Host : Type 0 where
  pub from_utf8 : Bytes → Option Text
  pub ipv6_text : Bytes → Text
  pub connects : Text → Bool

module _ (host : Host) where
  unfoldable pub utf8_or : Option Text → Socks Text
  utf8_or none = fail not_utf8
  utf8_or (some name) = pure name

  unfoldable pub read_domain : Socks Text
  unfolding utf8_or
  read_domain = do len ← read_exact 1; name ← read_exact (byte 0 len); utf8_or (host.from_utf8 name)

  unfoldable pub read_host : ℕ → Socks Text
  unfolding read_domain send_reply ipv4_text
  read_host address_type =
      if eqb address_type 1
      then (do addr ← read_exact 4; pure (ipv4_text addr))
      else if eqb address_type 3
      then read_domain
      else if eqb address_type 4
      then (do addr ← read_exact 16; pure (host.ipv6_text addr))
      else (do _ ← send_reply 8; fail (bad_address_type address_type))

  -- `format!("{host}:{port}")`
  abbrev pub target_of : Text → Bytes → Text
  target_of name port = name ++ (58 ∷ to_string (byte 0 port * 256 + byte 1 port))

  unfoldable pub dial : Text → Socks Text
  unfolding send_reply try_reply
  dial target =
      if host.connects target
      then (do _ ← send_reply 0; pure target)
      else (do _ ← try_reply 5; fail (connect_failed target))

  unfoldable pub connect_to : ℕ → Socks Text
  unfolding read_host dial
  connect_to address_type = do
    name ← read_host address_type
    port ← read_exact 2
    dial (target_of name port)

  unfoldable pub checked : ℕ → ℕ → ℕ → Socks Text
  unfolding connect_to send_reply
  checked version command address_type =
      if not (eqb version 5)
      then fail (bad_request_version version)
      else if not (eqb command 1)
      then (do _ ← send_reply 7; fail not_connect)
      else connect_to address_type

  unfoldable pub serve_request : Socks Text
  unfolding checked
  serve_request = do req ← read_exact 4; checked (byte 0 req) (byte 1 req) (byte 3 req)

  unfoldable pub greeted : ℕ → ℕ → Socks Text
  unfolding serve_request write_all
  greeted version methods =
      if not (eqb version 5)
      then fail (bad_version version)
      else (do _ ← read_exact methods; _ ← write_all (5 ∷ 0 ∷ []); serve_request)

  -- The target whose connection the stream is joined with.
  unfoldable pub serve_socks5 : Socks Text
  unfolding greeted
  serve_socks5 = do head ← read_exact 2; greeted (byte 0 head) (byte 1 head)
