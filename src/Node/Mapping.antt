-- ===== src/Node/Mapping.antt =====
-- crates/node-access-3role/src/mapping.rs: the services that a command line names.
use node_access.Prelude.{
  ◌||◌, ℕ, zero, suc, ◌≡◌, ◌≢◌, refl, Bool, true, false, Option, none, some, List, [], ◌∷◌, ◌++◌,
  map, Text, eqb, text_eq, if◌then◌else◌, trim, is_empty, ◌⊎◌, ◌↔◌, text_eq_iff, arith,
}

pub record TcpMapping : Type 0 where
  pub name : Text
  pub addr : Text
  pub auth : Option Text

pub record VisitorMapping : Type 0 where
  pub node : Text
  pub service : Text
  pub bind_addr : Text
  pub auth : Option Text

-- The character of a split.
abbrev pub colon : ℕ
colon = 58

extend : ℕ → List Text → List Text
extend c [] = (c ∷ []) ∷ []
extend c (part ∷ parts) = (c ∷ part) ∷ parts

-- `str::splitn` at `:`, with one more part than the first argument says at most.
unfoldable pub split_colon : ℕ → Text → List Text
unfolding extend
split_colon zero s = s ∷ []
split_colon (suc n) [] = [] ∷ []
split_colon (suc n) (c ∷ s) =
    let rest = extend c (split_colon (suc n) s) in
    let next = [] ∷ split_colon n s in if eqb c colon then next else rest

pub data MappingError : Type 0 where
  too_few_parts empty_name empty_address : MappingError

pub data Parsed (A : Type 0) : Type 0 where
  ok : A → Parsed A
  err : MappingError → Parsed A

-- `.get(i).map(trim).filter(not empty)` on what is left of the parts.
unfoldable pub parsed_auth : List Text → Option Text
parsed_auth [] = none
parsed_auth (auth ∷ rest) = if is_empty (trim auth) then none else some (trim auth)

tcp_of_parts : List Text → Parsed TcpMapping
unfolding parsed_auth
tcp_of_parts (name ∷ host ∷ port ∷ rest) =
    if is_empty name
    then err empty_name
    else if is_empty host || is_empty port
    then err empty_address
    else ok (record { name = name; addr = host ++ colon ∷ port; auth = parsed_auth rest })
tcp_of_parts _ = err too_few_parts

unfoldable pub parse_tcp_mapping : Text → Parsed TcpMapping
unfolding split_colon tcp_of_parts
parse_tcp_mapping value = tcp_of_parts (map trim (split_colon 3 value))

visitor_of_parts : List Text → Parsed VisitorMapping
unfolding parsed_auth
visitor_of_parts (node ∷ service ∷ host ∷ port ∷ rest) =
    if is_empty node || is_empty service
    then err empty_name
    else if is_empty host || is_empty port
    then err empty_address
    else ok (record {
      node = node;
      service = service;
      bind_addr = host ++ colon ∷ port;
      auth = parsed_auth rest;
    })
visitor_of_parts _ = err too_few_parts

unfoldable pub parse_visitor_mapping : Text → Parsed VisitorMapping
unfolding split_colon visitor_of_parts
parse_visitor_mapping value = visitor_of_parts (map trim (split_colon 4 value))

unfoldable pub auth_matches : Option Text → Option Text → Bool
auth_matches none presented = true
auth_matches (some []) presented = true
auth_matches (some (c ∷ allowed)) none = false
auth_matches (some (c ∷ allowed)) (some presented) = text_eq presented (c ∷ allowed)

-- A word of a mapping: not blank, not padded, without a colon.
abbrev pub NoColon : Text → Type 0
NoColon [] = Unit
NoColon (c ∷ s) = (c ≢ colon) × NoColon s

pub record Word (s : Text) : Type 0 where
  pub plain : NoColon s
  pub unpadded : trim s ≡ s
  pub nonempty : is_empty s ≡ false

split_colon-word :
    (n : ℕ) (s rest : Text)
    → NoColon s
    → split_colon (suc n) (s ++ colon ∷ rest) ≡ s ∷ split_colon n rest
unfolding split_colon
split_colon-word n [] rest h = refl
split_colon-word n (c ∷ s) rest (ne, h) = ground (arith, split_colon-word n s rest h, ne, extend)

split_colon-last : (n : ℕ) (s : Text) → NoColon s → split_colon n s ≡ s ∷ []
unfolding split_colon
split_colon-last zero s h = refl
split_colon-last (suc n) [] h = refl
split_colon-last (suc n) (c ∷ s) (ne, h) = ground (arith, split_colon-last (suc n) s h, ne, extend)

-- A service mapping of three words, which are neither blank nor padded and have no colon, joined by
-- colons, is read as its name and address, without an auth; with a fourth part that is neither
-- blank nor padded, that part, colons and all, is its auth.
pub parse_tcp_mapping-words :
    (name host port auth : Text)
    → Word name
    → Word host
    → Word port
    → trim auth ≡ auth
    → is_empty auth ≡ false
    → (parse_tcp_mapping (name ++ colon ∷ (host ++ colon ∷ port))
        ≡ ok (record { name = name; addr = host ++ colon ∷ port; auth = none }))
      × (parse_tcp_mapping (name ++ colon ∷ (host ++ colon ∷ (port ++ colon ∷ auth)))
          ≡ ok (record { name = name; addr = host ++ colon ∷ port; auth = some auth }))
unfolding parse_tcp_mapping tcp_of_parts parsed_auth
parse_tcp_mapping-words name host port auth n h p t e = (
  rw (
    split_colon-word 2 name (host ++ colon ∷ port) n.plain,
    split_colon-word 1 host port h.plain,
    split_colon-last 1 port p.plain,
    n.unpadded,
    h.unpadded,
    p.unpadded,
    n.nonempty,
    h.nonempty,
    p.nonempty,
  ),
  rw (
    split_colon-word 2 name (host ++ colon ∷ (port ++ colon ∷ auth)) n.plain,
    split_colon-word 1 host (port ++ colon ∷ auth) h.plain,
    split_colon-word 0 port auth p.plain,
    n.unpadded,
    h.unpadded,
    p.unpadded,
    n.nonempty,
    h.nonempty,
    p.nonempty,
    split_colon,
    t,
    t,
    e,
  ),
)

-- A visitor mapping of four words, which are neither blank nor padded and have no colon, joined by
-- colons, is read as its node, service and address, without an auth; with a fifth part that is
-- neither blank nor padded, that part, colons and all, is its auth.
pub parse_visitor_mapping-words :
    (node service host port auth : Text)
    → Word node
    → Word service
    → Word host
    → Word port
    → trim auth ≡ auth
    → is_empty auth ≡ false
    → (parse_visitor_mapping (node ++ colon ∷ (service ++ colon ∷ (host ++ colon ∷ port)))
        ≡ ok (record {
          node = node;
          service = service;
          bind_addr = host ++ colon ∷ port;
          auth = none;
        }))
      × (parse_visitor_mapping
            (node ++ colon ∷ (service ++ colon ∷ (host ++ colon ∷ (port ++ colon ∷ auth))))
          ≡ ok (record {
            node = node;
            service = service;
            bind_addr = host ++ colon ∷ port;
            auth = some auth;
          }))
unfolding parse_visitor_mapping visitor_of_parts parsed_auth
parse_visitor_mapping-words node service host port auth n s h p t e = (
  rw (
    split_colon-word 3 node (service ++ colon ∷ (host ++ colon ∷ port)) n.plain,
    split_colon-word 2 service (host ++ colon ∷ port) s.plain,
    split_colon-word 1 host port h.plain,
    split_colon-last 1 port p.plain,
    n.unpadded,
    s.unpadded,
    h.unpadded,
    p.unpadded,
    n.nonempty,
    s.nonempty,
    h.nonempty,
    p.nonempty,
  ),
  rw (
    split_colon-word 3 node (service ++ colon ∷ (host ++ colon ∷ (port ++ colon ∷ auth))) n.plain,
    split_colon-word 2 service (host ++ colon ∷ (port ++ colon ∷ auth)) s.plain,
    split_colon-word 1 host (port ++ colon ∷ auth) h.plain,
    split_colon-word 0 port auth p.plain,
    n.unpadded,
    s.unpadded,
    h.unpadded,
    p.unpadded,
    n.nonempty,
    s.nonempty,
    h.nonempty,
    p.nonempty,
    split_colon,
    t,
    t,
    e,
  ),
)

-- A visitor's auth matches that of a service exactly where the service has none or an empty one, or
-- the two are the same.
pub auth_matches_iff :
    (allowed presented : Option Text)
    → (auth_matches allowed presented ≡ true)
      ↔ ((allowed ≡ none) ⊎ ((allowed ≡ some []) ⊎ (presented ≡ allowed)))
unfolding auth_matches
auth_matches_iff none presented = ground arith
auth_matches_iff (some []) presented = ground arith
auth_matches_iff (some (c ∷ allowed)) none = ground arith
auth_matches_iff (some (c ∷ allowed)) (some presented) =
    ground (arith, text_eq_iff presented (c ∷ allowed))
