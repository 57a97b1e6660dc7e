-- ===== src/Session/Registry.antt =====
-- `SessionRegistry` of crates/relay/src/session.rs. A session that several sockets share behind an
-- `Arc` is the registry's entry of its key.
use node_access.Prelude.{
  ◌∙◌, ◌≡◌, ◌≢◌, ◌↔◌, refl, Bool, true, false, ◌&&◌, none, some, [], Eq, ◌==◌, text_Eq, text_eq,
  text_eq_iff, if◌then◌else◌, arith, Option-cases, inl, inr, eq_self,
}
use node_access.HashMap.{HashMap, get, insert}
use node_access.HashMap.Laws.{get-insert}
use node_access.Protocol.{RelayVersion, v1, v2}
use node_access.Session.State.{
  SessionKey, SessionState, empty_session, RelayTimingConfig, RelayLimitsConfig,
}

version_eq : RelayVersion → RelayVersion → Bool
version_eq v1 v1 = true
version_eq v2 v2 = true
version_eq _ _ = false

-- The derived `PartialEq`: both fields.
unfoldable pub key_eq : SessionKey → SessionKey → Bool
unfolding version_eq
key_eq a b = text_eq a.server_id b.server_id && version_eq a.version b.version

pub key_eq_iff : (a b : SessionKey) → (key_eq a b ≡ true) ↔ (a ≡ b)
unfolding key_eq
key_eq_iff a b = ground (arith, text_eq_iff a.server_id b.server_id)

instance abbrev pub key_Eq : Eq SessionKey
key_Eq = record { test = key_eq; decides = key_eq_iff }

pub record RelaySession : Type 0 where
  pub key : SessionKey
  pub timings : RelayTimingConfig
  pub limits : RelayLimitsConfig
  pub state : SessionState

unfoldable pub new_session : SessionKey → RelayTimingConfig → RelayLimitsConfig → RelaySession
new_session key timings limits = record {
  key = key;
  timings = timings;
  limits = limits;
  state = empty_session;
}

pub record SessionRegistry : Type 0 where
  pub timings : RelayTimingConfig
  pub limits : RelayLimitsConfig
  pub sessions : HashMap SessionKey RelaySession

unfoldable pub new_registry : RelayTimingConfig → RelayLimitsConfig → SessionRegistry
new_registry timings limits = record { timings = timings; limits = limits; sessions = [] }

unfoldable pub get_or_create : SessionRegistry → SessionKey → RelaySession × SessionRegistry
get_or_create r key = elim (get key r.sessions) [
  | some session ↦ (session, r)
  | none ↦ (
    new_session key r.timings r.limits,
    record r { sessions = insert key (new_session key r.timings r.limits) r.sessions },
  )
]

-- What a socket of one key does to its session.
unfoldable pub update : SessionRegistry → SessionKey → SessionState → SessionRegistry
update r key state = elim (get key r.sessions) [
  | none ↦ r
  | some session ↦ record r { sessions = insert key (record session { state = state }) r.sessions }
]

key_ne : (key other : SessionKey) → key ≢ other → (key == other) ≡ false
key_ne key other ne = ground (arith, key_eq_iff key other, ne)

get_or_create_new :
    (r : SessionRegistry) (key : SessionKey)
    → get key (get_or_create r key).1.sessions ≡ some (get_or_create r key).0
unfolding get_or_create
get_or_create_new r key = elim (Option-cases (get key r.sessions)) [
  | inl e ↦ rw (e, get_or_create) (rw (get-insert key key _ r.sessions, eq_self key))
  | inr (x, e) ↦ rw (e, get_or_create) e
]

get_or_create_other :
    (r : SessionRegistry) (key other : SessionKey)
    → key ≢ other
    → get other (get_or_create r key).1.sessions ≡ get other r.sessions
unfolding get_or_create
get_or_create_other r key other ne = elim (Option-cases (get key r.sessions)) [
  | inl e ↦ rw (e, get_or_create) (rw (get-insert key other _ r.sessions, key_ne key other ne))
  | inr (x, e) ↦ rw (e, get_or_create) refl
]

get_or_create_found :
    (r : SessionRegistry) (key : SessionKey) (x : RelaySession)
    → get key r.sessions ≡ some x
    → (get_or_create r key).0 ≡ x
unfolding get_or_create
get_or_create_found r key x e = rw (e, get_or_create) refl

get-update :
    (r : SessionRegistry) (key j : SessionKey) (state : SessionState) (x : RelaySession)
    → get key r.sessions ≡ some x
    → get j (update r key state).sessions
      ≡ (if key == j then some (record x { state = state }) else get j r.sessions)
unfolding update
get-update r key j state x e =
    rw (e, update) (get-insert key j (record x { state = state }) r.sessions)

-- After a socket of a key has got its session and changed the session's state, the next socket with
-- that server id and version gets the changed session, and a key that differs in the server id or
-- the version has the session that it had, or none.
pub sessions_isolated :
    (r : SessionRegistry) (key other : SessionKey) (state : SessionState)
    → let r' = update (get_or_create r key).1 key state in
      ((get_or_create r' key).0 ≡ record ((get_or_create r key).0) { state = state })
      × (key ≢ other → get other r'.sessions ≡ get other r.sessions)
sessions_isolated r key other state =
    let r1 = (get_or_create r key).1 in
    let x = (get_or_create r key).0 in
    let found = get_or_create_new r key in
    (
      get_or_create_found (update r1 key state) key (record x { state = state })
          (get-update r1 key key state x found ∙ rw (eq_self key)),
      λ ne.
          get-update r1 key other state x found
          ∙ rw (key_ne key other ne) (get_or_create_other r key other ne),
    )
