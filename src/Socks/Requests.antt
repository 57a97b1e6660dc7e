-- ===== src/Socks/Requests.antt =====
-- What `serve_socks5` does with the requests that RFC 1928 describes.
use node_access.Prelude.{ℕ, suc, ◌≡◌, refl, some, [], ◌∷◌, ◌++◌, Text, if◌then◌else◌, length, arith}
use node_access.Mux.Frame.{Bytes}
use node_access.Socks.{
  Stream, connect_failed, done, failed, Host, split_at, read_exact, write_left, write_all, reply,
  send_reply, try_reply, ipv4_text, utf8_or, read_domain, read_host, target_of, dial, connect_to,
  checked, serve_request, greeted, serve_socks5,
}

split_at-append : (xs ys : Bytes) → split_at (length xs) (xs ++ ys) ≡ some (xs, ys)
unfolding split_at
split_at-append [] ys = refl
split_at-append (x ∷ xs) ys = rw (split_at-append xs ys) refl

pub read_exact_lem :
    (n : ℕ) (bytes front rest w : Bytes) (k : ℕ)
    → split_at n bytes ≡ some (front, rest)
    → read_exact n (record { incoming = bytes; written = w; writes_left = k })
      ≡ (done front, record { incoming = rest; written = w; writes_left = k })
unfolding read_exact
read_exact_lem n bytes front rest w k e = rw (read_exact, e) refl

-- The address of a request: its type, its bytes and the name that the code makes of it.
pub data Address : Type 0 where
  v4 : ℕ → ℕ → ℕ → ℕ → Address
  domain v6 : Bytes → Address

abbrev pub address_type : Address → ℕ
address_type (v4 a b c d) = 1
address_type (domain name) = 3
address_type (v6 addr) = 4

-- The address and what follows it.
abbrev pub address_bytes : Address → Bytes → Bytes
address_bytes (v4 a b c d) rest = a ∷ b ∷ c ∷ d ∷ rest
address_bytes (domain name) rest = length name ∷ (name ++ rest)
address_bytes (v6 addr) rest = addr ++ rest

-- What a client sends that asks for the methods, then to connect to an address and a port, and then
-- goes on.
abbrev pub request_bytes : Bytes → ℕ → Address → ℕ → ℕ → Bytes → Bytes
request_bytes methods reserved address high low rest =
    5
    ∷ length methods
    ∷ (methods
        ++ 5 ∷ 1 ∷ reserved ∷ address_type address ∷ address_bytes address (high ∷ low ∷ rest))

abbrev pub Names : Host → Address → Text → Type 0
Names host (v4 a b c d) name = name ≡ ipv4_text (a ∷ b ∷ c ∷ d ∷ [])
Names host (domain bytes) name = host.from_utf8 bytes ≡ some name
Names host (v6 addr) name = (length addr ≡ 16) × (host.ipv6_text addr ≡ name)

-- A stream that takes two more writes.
abbrev pub ready : Bytes → ℕ → Stream
ready bytes more = record { incoming = bytes; written = []; writes_left = suc (suc more) }

module _ (host : Host) where
  dial_lem :
      (target : Text) (rest : Bytes) (more : ℕ)
      → dial host target (record { incoming = rest; written = 5 ∷ 0 ∷ []; writes_left = suc more })
        ≡ (
          (if host.connects target then done target else failed (connect_failed target)),
          record {
            incoming = rest;
            written = 5 ∷ 0 ∷ reply (if host.connects target then 0 else 5);
            writes_left = more;
          },
        )
  unfolding dial send_reply try_reply write_all write_left
  dial_lem target rest more = ground arith

  read_host_lem :
      (address : Address) (name : Text) (rest w : Bytes) (k : ℕ)
      → Names host address name
      → read_host host
          (address_type address)
          (record { incoming = address_bytes address rest; written = w; writes_left = k })
        ≡ (done name, record { incoming = rest; written = w; writes_left = k })
  unfolding read_host read_domain split_at utf8_or
  read_host_lem (v4 a b c d) name rest w k n =
      rw (read_exact_lem 4 (a ∷ b ∷ c ∷ d ∷ rest) (a ∷ b ∷ c ∷ d ∷ []) rest w k refl, n) refl
  read_host_lem (domain bytes) name rest w k n =
      rw
        (
          read_exact_lem 1 (length bytes ∷ (bytes ++ rest)) (length bytes ∷ []) (bytes ++ rest) w k
              refl,
          read_exact_lem (length bytes) (bytes ++ rest) bytes rest w k (split_at-append bytes rest),
          n,
          utf8_or,
        )
        refl
  read_host_lem (v6 addr) name rest w k (n, t) =
      let e : split_at 16 (addr ++ rest) ≡ some (addr, rest) =
        rw (← n) (split_at-append addr rest) in
      rw (read_exact_lem 16 (addr ++ rest) addr rest w k e, t) refl

  -- A client that asks by one of the methods to connect to an address is answered, where two writes
  -- succeed, that no authentication is needed and then with the outcome of the connection: code 0,
  -- and the stream joined with the target, its further bytes untouched, or code 5 and the error.
  -- The target is the name of the address, which for a domain must be UTF-8, and the port.
  pub serve_socks5-request :
      (methods : Bytes) (reserved : ℕ) (address : Address) (name : Text) (high low : ℕ)
      (rest : Bytes) (more : ℕ)
      → Names host address name
      → let target = target_of host name (high ∷ low ∷ []) in
        serve_socks5 host (ready (request_bytes methods reserved address high low rest) more) ≡ (
          (if host.connects target then done target else failed (connect_failed target)),
          record {
            incoming = rest;
            written = 5 ∷ 0 ∷ reply (if host.connects target then 0 else 5);
            writes_left = more;
          },
        )
  unfolding serve_socks5 greeted serve_request checked connect_to split_at write_all write_left
  serve_socks5-request methods reserved address name high low rest more n =
      let after = high ∷ low ∷ rest in
      let asked = 5 ∷ 1 ∷ reserved ∷ address_type address ∷ address_bytes address after in
      let k = suc more in
      rw
        (
          read_exact_lem 2 (5 ∷ length methods ∷ (methods ++ asked)) (5 ∷ length methods ∷ [])
              (methods ++ asked) [] (suc k) refl,
          read_exact_lem (length methods) (methods ++ asked) methods asked [] (suc k)
              (split_at-append methods asked),
          read_exact_lem 4 asked (5 ∷ 1 ∷ reserved ∷ address_type address ∷ [])
              (address_bytes address after) (5 ∷ 0 ∷ []) k refl,
          read_host_lem address name after (5 ∷ 0 ∷ []) k n,
          read_exact_lem 2 after (high ∷ low ∷ []) rest (5 ∷ 0 ∷ []) k refl,
        )
        (dial_lem (target_of host name (high ∷ low ∷ [])) rest more)
