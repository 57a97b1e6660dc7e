-- ===== src/Socks/Addresses.antt =====
-- Reading the request of a SOCKS5 client in crates/node-access-3role/src/socks.rs, up to the end of
-- its address.
use node_access.Prelude.{
  ℕ, suc, ◌+◌, ◌≡◌, ◌≢◌, ◌<◌, inl, inr, refl, ap, sym, subst, ◌∙◌, false, true, some, Option-cases,
  Bool-cases, [], ◌∷◌, ◌++◌, Text, eqb, eqb_iff, length, append_assoc, arith,
}
use node_access.Mux.Frame.{Bytes}
use node_access.Socks.{
  Stream, bad_address_type, Step, done, failed, Socks, Host, split_at, read_exact, write_left,
  write_all, reply, send_reply, byte, ipv4_text, utf8_or, read_domain, read_host, ◌>>=◌, fail, pure,
  and_then,
}
use node_access.Socks.Shapes.{
  greeting, Greets, host_len, host_name, Known, CutRequest, Answers, split_at-none, split_at-some,
}

-- A result that goes on as `Q` says, or ends with its answer to the client's bytes.
abbrev pub Ends : Host → Bytes → {A : Type 0} → (A → Stream → Type 0) → Step A × Stream → Type 0
Ends host bytes Q (done a, s) = Q a s
Ends host bytes Q (failed e, s) = Answers host bytes e s.written

pub write_all_lem :
    (bytes out : Bytes) (k : ℕ) (s : Stream)
    → s.written ≡ out
    → s.writes_left ≡ suc k
    → write_all bytes s ≡ (done tt, record s { written = out ++ bytes; writes_left = k })
unfolding write_all
write_all_lem bytes out k s w l = rw (write_all, l, write_left, w) refl

pub neither : (t n : ℕ) → eqb t n ≡ false → t ≢ n
neither t n h = ground (arith, eqb_iff t n)

host_len_domain :
    (t : ℕ) (addr : Bytes) → eqb t 1 ≡ false → eqb t 3 ≡ true → host_len t addr ≡ 1 + byte 0 addr
unfolding host_len
host_len_domain t addr y z = rw (y, z) refl

module _ (host : Host) (bytes : Bytes) where
  pub and_then-Ends :
      {A B : Type 0} (P : A → Stream → Type 0) (Q : B → Stream → Type 0) (r : Step A × Stream)
      (f : A → Socks B)
      → Ends host bytes P r
      → ((a : A) (s : Stream) → P a s → Ends host bytes Q (f a s))
      → Ends host bytes Q (and_then r f)
  and_then-Ends P Q (done a, s) f h next = next a s h
  and_then-Ends P Q (failed e, s) f h next = h

  -- Greeted, with some bytes of the request read and as many writes left.
  abbrev pub Ready : ℕ → Bytes → Stream → Type 0
  Ready k request s =
      (s.written ≡ greeting) × (s.writes_left ≡ k) × Greets bytes (request ++ s.incoming)

  pub read-Ready :
      (k n : ℕ) (request : Bytes) (s : Stream)
      → ((rest : Bytes) → length rest < n → CutRequest host (request ++ rest))
      → Ready k request s
      → Ends host bytes
          (λ front s'. (length front ≡ n) × Ready k (request ++ front) s')
          (read_exact n s)
  unfolding read_exact
  read-Ready k n request s short (w, l, g) = elim (Option-cases (split_at n s.incoming)) [
    | inl e ↦
        let cut = short s.incoming (split_at-none n s.incoming e) in
        rw (read_exact, e) (inr (w, request ++ s.incoming, g, cut))
    | inr ((front, rest), e) ↦
        let (n_front, same) = split_at-some n s.incoming front rest e in
        let regroup = ap (◌++◌ request) same ∙ sym (append_assoc request front rest) in
        rw (read_exact, e) (n_front, (w, l, subst (Greets bytes) regroup g))
  ]

  module _ (r t : ℕ) where
    -- The request up to the type of its address.
    abbrev pub upto : Bytes → Bytes
    upto addr = 5 ∷ 1 ∷ r ∷ t ∷ addr

    -- A connection is asked for, and the address has been read.
    abbrev pub Addressed : ℕ → Bytes → Text → Stream → Type 0
    Addressed k addr name s =
        (length addr ≡ host_len t addr)
        × (host_name host t addr ≡ some name)
        × Known t
        × Ready k (upto addr) s

    pub cut_address :
        (addr rest : Bytes)
        → Known t
        → length (addr ++ rest) < host_len t (addr ++ rest) + 2
        → CutRequest host (upto addr ++ rest)
    cut_address addr rest known h = inr (r, t, addr ++ rest, refl, known, h)

    module _ (k : ℕ) (y : eqb t 1 ≡ false) (z : eqb t 3 ≡ true) where
      domain : t ≡ 3
      domain = ground (arith, eqb_iff t 3, z)

      domain_name :
          (b : ℕ) (name : Bytes) (s : Stream)
          → length name ≡ b
          → Ready k (upto (b ∷ name)) s
          → Ends host bytes
              (λ text s'. (addr : Bytes) × Addressed k addr text s')
              (utf8_or host (host.from_utf8 name) s)
      unfolding utf8_or host_name
      domain_name b name s n a =
          let len : length (b ∷ name) ≡ host_len t (b ∷ name) =
            omega (arith, n, host_len_domain t (b ∷ name) y z) in
          elim (Option-cases (host.from_utf8 name)) [
            | inl e ↦
                rw (e, utf8_or)
                  (a.0, r, t, b ∷ name, s.incoming, a.2, domain, len, rw (host_name, y, z) e)
            | inr (text, e) ↦
                rw (e, utf8_or) (b ∷ name, (len, rw (host_name, y, z) e, inr (inl domain), a))
          ]

      domain_rest :
          (len : Bytes) (s : Stream)
          → length len ≡ 1
          → Ready k (upto len) s
          → Ends host bytes
              (λ text s'. (addr : Bytes) × Addressed k addr text s')
              (and_then (read_exact (byte 0 len) s) (λ name. utf8_or host (host.from_utf8 name)))
      domain_rest [] s n a = absurd (omega (arith, n))
      domain_rest (b ∷ c ∷ len) s n a = absurd (omega (arith, n))
      domain_rest (b ∷ []) s n a =
          and_then-Ends (λ name s'. (length name ≡ b) × Ready k (upto (b ∷ name)) s') _
            (read_exact b s) _
            (read-Ready k b (upto (b ∷ [])) s
              (λ rest h.
                cut_address (b ∷ []) rest (inr (inl domain))
                  (omega (arith, h, host_len_domain t (b ∷ rest) y z)))
              a)
            λ name s' (n', a'). domain_name b name s' n' a'

      read_domain-Ends :
          (s : Stream)
          → Ready k (upto []) s
          → Ends host bytes
              (λ text s'. (addr : Bytes) × Addressed k addr text s')
              (read_domain host s)
      unfolding read_domain
      read_domain-Ends s a =
          and_then-Ends (λ len s'. (length len ≡ 1) × Ready k (upto len) s') _ (read_exact 1 s) _
            (read-Ready k 1 (upto []) s
              (λ rest h.
                cut_address [] rest (inr (inl domain))
                  (omega (arith, h, host_len_domain t rest y z)))
              a)
            λ len s' (n', a'). domain_rest len s' n' a'

    -- An address whose length is in its type.
    fixed_length :
        (k n : ℕ) (text : Bytes → Text) (s : Stream)
        → Known t
        → ((addr : Bytes) → host_len t addr ≡ n)
        → ((addr : Bytes) → host_name host t addr ≡ some (text addr))
        → Ready k (upto []) s
        → Ends host bytes
            (λ name s'. (addr : Bytes) × Addressed k addr name s')
            (and_then (read_exact n s) (λ addr. pure (text addr)))
    fixed_length k n text s known len name a =
        and_then-Ends (λ addr s'. (length addr ≡ n) × Ready k (upto addr) s') _ (read_exact n s) _
          (read-Ready k n (upto []) s
            (λ rest h. cut_address [] rest known (omega (arith, h, len rest))) a)
          λ addr s' (n', a'). (addr, (n' ∙ sym (len addr), name addr, known, a'))

    of_ipv4 :
        (addr : Bytes)
        → eqb t 1 ≡ true
        → (host_len t addr ≡ 4) × (host_name host t addr ≡ some (ipv4_text addr))
    unfolding host_len host_name
    of_ipv4 addr y = rw y (refl, refl)

    of_ipv6 :
        (addr : Bytes)
        → eqb t 1 ≡ false
        → eqb t 3 ≡ false
        → eqb t 4 ≡ true
        → (host_len t addr ≡ 16) × (host_name host t addr ≡ some (host.ipv6_text addr))
    unfolding host_len host_name
    of_ipv6 addr y z x = rw (y, z, x) (refl, refl)

    unknown_type :
        (k : ℕ) (Q : Text → Stream → Type 0) (s : Stream)
        → ¬ (Known t)
        → Ready (suc k) (upto []) s
        → Ends host bytes Q ((send_reply 8 >>= λ _. fail (bad_address_type t)) s)
    unfolding send_reply
    unknown_type k Q s ne (w, l, g) =
        rw (write_all_lem (reply 8) greeting k s w l) (refl, r, s.incoming, g, ne)

    pub read_host-Ends :
        (k : ℕ) (s : Stream)
        → Ready (suc k) (upto []) s
        → Ends host bytes
            (λ name s'. (addr : Bytes) × Addressed (suc k) addr name s')
            (read_host host t s)
    unfolding read_host
    read_host-Ends k s a = elim (Bool-cases (eqb t 1)) [
      | inl y ↦
          let known : Known t = inl (ground (arith, eqb_iff t 1, y)) in
          rw y (
            fixed_length (suc k) 4 ipv4_text s known (λ addr. (of_ipv4 addr y).0)
              (λ addr. (of_ipv4 addr y).1) a)
      | inr y ↦ elim (Bool-cases (eqb t 3)) [
        | inl z ↦ rw (y, z) (read_domain-Ends (suc k) y z s a)
        | inr z ↦ elim (Bool-cases (eqb t 4)) [
          | inl x ↦
              let known : Known t = inr (inr (ground (arith, eqb_iff t 4, x))) in
              rw (y, z, x)
                (fixed_length (suc k) 16 host.ipv6_text s known (λ addr. (of_ipv6 addr y z x).0)
                  (λ addr. (of_ipv6 addr y z x).1) a)
          | inr x ↦
              let ne : ¬ (Known t) =
                λ known. ground (arith, known, neither t 1 y, neither t 3 z, neither t 4 x) in
              rw (y, z, x) (unknown_type k _ s ne a)
        ]
      ]
    ]
