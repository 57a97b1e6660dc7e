-- ===== src/Socks/Answers.antt =====
-- What `serve_socks5` of crates/node-access-3role/src/socks.rs has written when it ends, whatever the
-- client sends.
use node_access.Prelude.{
  ℕ, suc, ◌≡◌, ◌≢◌, ◌<◌, inl, inr, refl, ap, subst, ◌∙◌, some, Option-cases, Bool-cases, [], ◌∷◌,
  ◌++◌, Text, eqb, eqb_iff, length, length-append, append_assoc, arith,
}
use node_access.Mux.Frame.{Bytes}
use node_access.Socks.{
  Stream, not_connect, Host, split_at, read_exact, write_all, reply, send_reply, try_reply, byte,
  read_host, target_of, dial, connect_to, checked, serve_request, greeted, serve_socks5, ◌>>=◌,
  fail, and_then,
}
use node_access.Socks.Shapes.{
  greeting, Greets, host_len, host_name, Asks, CutGreeting, Served, split_at-none, split_at-some,
  host_len-append,
}
use node_access.Socks.Addresses.{
  Ends, and_then-Ends, write_all_lem, neither, Ready, read-Ready, upto, Addressed, cut_address,
  read_host-Ends,
}

module _ (host : Host) (bytes : Bytes) (k : ℕ) where
  dial-Ends :
      (target : Text) (s : Stream)
      → s.written ≡ greeting
      → s.writes_left ≡ suc k
      → Asks host bytes target s.incoming
      → Ends host bytes (Served host bytes) (dial host target s)
  unfolding dial send_reply try_reply
  dial-Ends target s w l asks = elim (Bool-cases (host.connects target)) [
    | inl y ↦ rw (y, write_all_lem (reply 0) greeting k s w l) (refl, asks, y)
    | inr y ↦ rw (y, write_all_lem (reply 5) greeting k s w l) (refl, s.incoming, asks, y)
  ]

  port_read :
      (r t : ℕ) (addr : Bytes) (name : Text) (port : Bytes) (s : Stream)
      → length addr ≡ host_len t addr
      → host_name host t addr ≡ some name
      → length port ≡ 2
      → Ready host bytes (suc k) (5 ∷ 1 ∷ r ∷ t ∷ (addr ++ port)) s
      → Ends host bytes (Served host bytes) (dial host (target_of host name port) s)
  port_read r t addr name [] s len named n a = absurd (omega (arith, n))
  port_read r t addr name (p ∷ []) s len named n a = absurd (omega (arith, n))
  port_read r t addr name (p ∷ q ∷ x ∷ port) s len named n a = absurd (omega (arith, n))
  port_read r t addr name (p ∷ q ∷ []) s len named n (w, l, g) =
      let regroup =
        ap (λ (b : Bytes). 5 ∷ 1 ∷ r ∷ t ∷ b) (append_assoc addr (p ∷ q ∷ []) s.incoming) in
      dial-Ends (target_of host name (p ∷ q ∷ [])) s w l
        (r, t, addr, p, q, name, subst (Greets bytes) regroup g, len, named, refl)

  connect_to-Ends :
      (r t : ℕ) (s : Stream)
      → Ready host bytes (suc k) (5 ∷ 1 ∷ r ∷ t ∷ []) s
      → Ends host bytes (Served host bytes) (connect_to host t s)
  unfolding connect_to
  connect_to-Ends r t s a =
      and_then-Ends host bytes
        (λ name s'. (addr : Bytes) × Addressed host bytes r t (suc k) addr name s') _
        (read_host host t s) _ (read_host-Ends host bytes r t k s a)
        λ name s1 (addr, (len, named, known, a1)).
          and_then-Ends host bytes
            (λ port s'.
              (length port ≡ 2) × Ready host bytes (suc k) (5 ∷ 1 ∷ r ∷ t ∷ (addr ++ port)) s')
            _ (read_exact 2 s1) _
            (read-Ready host bytes (suc k) 2 (upto host bytes r t addr) s1
              (λ rest h.
                cut_address host bytes r t addr rest known
                  (omega (arith, h, len, host_len-append t addr rest len, length-append addr rest)))
              a1)
            λ port s2 (n, a2). port_read r t addr name port s2 len named n a2

  not_to_connect :
      (c r t : ℕ) (s : Stream)
      → c ≢ 1
      → Ready host bytes (suc k) (5 ∷ c ∷ r ∷ t ∷ []) s
      → Ends host bytes (Served host bytes) ((send_reply 7 >>= λ _. fail not_connect) s)
  unfolding send_reply
  not_to_connect c r t s ne (w, l, g) =
      rw (write_all_lem (reply 7) greeting k s w l) (refl, c, r, t, s.incoming, g, ne)

  checked-Ends :
      (v c r t : ℕ) (s : Stream)
      → Ready host bytes (suc k) (v ∷ c ∷ r ∷ t ∷ []) s
      → Ends host bytes (Served host bytes) (checked host v c t s)
  unfolding checked
  checked-Ends v c r t s a = elim (Bool-cases (eqb v 5)) [
    | inr y ↦ rw y (a.0, neither v 5 y, c, r, t, s.incoming, a.2)
    | inl y ↦
        let five : v ≡ 5 = ground (arith, eqb_iff v 5, y) in
        let a5 = subst (λ v. Ready host bytes (suc k) (v ∷ c ∷ r ∷ t ∷ []) s) five a in
        elim (Bool-cases (eqb c 1)) [
          | inr z ↦ rw (y, z) (not_to_connect c r t s (neither c 1 z) a5)
          | inl z ↦
              let one : c ≡ 1 = ground (arith, eqb_iff c 1, z) in
              rw (y, z)
                (connect_to-Ends r t s
                  (subst (λ c. Ready host bytes (suc k) (5 ∷ c ∷ r ∷ t ∷ []) s) one a5))
        ]
  ]

  request_read :
      (req : Bytes) (s : Stream)
      → length req ≡ 4
      → Ready host bytes (suc k) req s
      → Ends host bytes (Served host bytes) (checked host (byte 0 req) (byte 1 req) (byte 3 req) s)
  request_read (v ∷ c ∷ r ∷ t ∷ []) s n a = checked-Ends v c r t s a
  request_read [] s n a = absurd (omega (arith, n))
  request_read (v ∷ []) s n a = absurd (omega (arith, n))
  request_read (v ∷ c ∷ []) s n a = absurd (omega (arith, n))
  request_read (v ∷ c ∷ r ∷ []) s n a = absurd (omega (arith, n))
  request_read (v ∷ c ∷ r ∷ t ∷ x ∷ req) s n a = absurd (omega (arith, n))

  serve_request-Ends :
      (s : Stream)
      → Ready host bytes (suc k) [] s
      → Ends host bytes (Served host bytes) (serve_request host s)
  unfolding serve_request
  serve_request-Ends s a =
      and_then-Ends host bytes (λ req s'. (length req ≡ 4) × Ready host bytes (suc k) req s') _
        (read_exact 4 s) _ (read-Ready host bytes (suc k) 4 [] s (λ rest h. inl h) a)
        λ req s' (n, a'). request_read req s' n a'

  -- Nothing has been written, and both writes are left.
  abbrev Silent : Stream → Type 0
  Silent s = (s.written ≡ []) × (s.writes_left ≡ suc (suc k))

  read-Silent :
      (n : ℕ) (s : Stream)
      → (length s.incoming < n → CutGreeting host bytes)
      → Silent s
      → Ends host bytes
          (λ front s'. (length front ≡ n) × (s.incoming ≡ front ++ s'.incoming) × Silent s')
          (read_exact n s)
  unfolding read_exact
  read-Silent n s short (w, l) = elim (Option-cases (split_at n s.incoming)) [
    | inl e ↦ rw (read_exact, e) (inl (w, short (split_at-none n s.incoming e)))
    | inr ((front, rest), e) ↦
        let (n_front, same) = split_at-some n s.incoming front rest e in
        rw (read_exact, e) (n_front, same, (w, l))
  ]

  -- The methods have been read.
  methods_read :
      (m : ℕ) (methods : Bytes) (s : Stream)
      → length methods ≡ m
      → bytes ≡ 5 ∷ m ∷ (methods ++ s.incoming)
      → Silent s
      → Ends host bytes
          (Served host bytes)
          (and_then (write_all (5 ∷ 0 ∷ []) s) (λ _. serve_request host))
  methods_read m methods s n whole (w, l) = rw (write_all_lem greeting [] (suc k) s w l) (
      serve_request-Ends (record s { written = greeting; writes_left = suc k })
        (refl, refl, (methods, rw n whole)))

  greeted-Ends :
      (v m : ℕ) (s : Stream)
      → Silent s
      → bytes ≡ v ∷ m ∷ s.incoming
      → Ends host bytes (Served host bytes) (greeted host v m s)
  unfolding greeted
  greeted-Ends v m s a whole = elim (Bool-cases (eqb v 5)) [
    | inr y ↦ rw y (a.0, neither v 5 y, m, s.incoming, whole)
    | inl y ↦
        let five : v ≡ 5 = ground (arith, eqb_iff v 5, y) in
        let whole5 = subst (λ v. bytes ≡ v ∷ m ∷ s.incoming) five whole in
        rw y (
          and_then-Ends host bytes
            (λ front s'. (length front ≡ m) × (s.incoming ≡ front ++ s'.incoming) × Silent s') _
            (read_exact m s) _ (read-Silent m s (λ h. inr (m, s.incoming, whole5, h)) a)
            λ methods s' (n, same, a').
              methods_read m methods s' n (whole5 ∙ ap (λ (b : Bytes). 5 ∷ m ∷ b) same) a')
  ]

  head_read :
      (head : Bytes) (s : Stream)
      → length head ≡ 2
      → bytes ≡ head ++ s.incoming
      → Silent s
      → Ends host bytes (Served host bytes) (greeted host (byte 0 head) (byte 1 head) s)
  head_read (v ∷ m ∷ []) s n whole a = greeted-Ends v m s a whole
  head_read [] s n whole a = absurd (omega (arith, n))
  head_read (v ∷ []) s n whole a = absurd (omega (arith, n))
  head_read (v ∷ m ∷ x ∷ head) s n whole a = absurd (omega (arith, n))

  -- Whatever a client sends on a stream that takes two writes, the handshake ends, and how it ends
  -- and what it has written tell what the client has sent. Joined with a target, after the greeting
  -- and code 0: a greeting of version 5 with its methods, and a request of version 5 to connect to
  -- an address, whose name and port make the target, which can be connected to; the bytes behind it
  -- are the target's. Otherwise nothing is written where the version of the greeting is not 5; the
  -- greeting alone after a greeting of version 5, where the version of the request is not 5, or its
  -- address is a domain that is not UTF-8; and the greeting with code 7, 8 or 5 where the command is
  -- not 1, the type of the address is none of 1, 3 and 4, or the target cannot be connected to; and
  -- nothing or the greeting where the bytes end within the greeting or within the request.
  pub serve_socks5-Ends :
      Ends host bytes
        (Served host bytes)
        (serve_socks5 host (record { incoming = bytes; written = []; writes_left = suc (suc k) }))
  unfolding serve_socks5
  serve_socks5-Ends =
      let s : Stream = record { incoming = bytes; written = []; writes_left = suc (suc k) } in
      and_then-Ends host bytes
        (λ head s'. (length head ≡ 2) × (bytes ≡ head ++ s'.incoming) × Silent s') _
        (read_exact 2 s) _ (read-Silent 2 s (λ h. inl h) (refl, refl))
        λ head s' (n, whole, a). head_read head s' n whole a
