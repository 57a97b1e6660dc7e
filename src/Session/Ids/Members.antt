-- ===== src/Session/Ids/Members.antt =====
-- Which connection ids the relay tells a control socket, in crates/relay/src/session.rs.
use node_access.Prelude.{
  ◌≡◌, ◌∙◌, refl, ap, Bool, true, false, Option, none, some, List, [], ◌∷◌, Text, text_Eq, arith,
  ◌==◌, ◌||◌, is_empty, text_eq_iff,
}
use node_access.HashMap.{HashMap, get, insert, keys}
use node_access.HashMap.Entries.{Entries}
use node_access.Session.State.{PeerHandle, PeerId, SessionState, RelayLimitsConfig}
use node_access.Session.Ops.{live_ids, unique, insert_sorted, sort, collect_client_connection_ids}
use node_access.Session.WellFormed.{WellFormed, IsConnection}

abbrev pub contains : Text → List Text → Bool
contains x [] = false
contains x (t ∷ ts) = t == x || contains x ts

abbrev pub is_some {ℓ} : {A : Type ℓ} → Option A → Bool
is_some none = false
is_some (some a) = true

module _ (x : Text) where
  contains-insert_sorted :
      (t : Text) (us : List Text) → contains x (insert_sorted t us) ≡ (t == x || contains x us)
  unfolding insert_sorted
  contains-insert_sorted t [] = refl
  contains-insert_sorted t (u ∷ us) = ground (arith, contains-insert_sorted t us)

  contains-sort : (ts : List Text) → contains x (sort ts) ≡ contains x ts
  unfolding sort
  contains-sort [] = refl
  contains-sort (t ∷ ts) =
      contains-insert_sorted t (sort ts) ∙ ap (λ b. t == x || b) (contains-sort ts)

  contains-keys-insert :
      (k : Text) (v : Unit {0}) (m : HashMap Text (Unit {0}))
      → contains x (keys (insert k v m)) ≡ (k == x || contains x (keys m))
  unfolding insert
  contains-keys-insert k v [] = refl
  contains-keys-insert k v ((j, w) ∷ m) =
      ground (arith, contains-keys-insert k v m, text_eq_iff j k, text_eq_iff j x, text_eq_iff k x)

  contains-unique : (ids : List Text) → contains x (keys (unique ids)) ≡ contains x ids
  unfolding unique
  contains-unique [] = refl
  contains-unique (id ∷ ids) =
      contains-keys-insert id tt (unique ids) ∙ ap (λ b. id == x || b) (contains-unique ids)

  -- Where no connection is without clients.
  contains-live_ids :
      (limits : RelayLimitsConfig) (m : HashMap Text (HashMap PeerId PeerHandle))
      → Entries (IsConnection limits) m
      → contains x (live_ids m) ≡ is_some (get x m)
  unfolding live_ids get is_empty
  contains-live_ids limits [] a = refl
  contains-live_ids limits ((id, []) ∷ m) a = absurd (omega (arith, (a.0).inhabited))
  contains-live_ids limits ((id, c ∷ cs) ∷ m) a = ground (arith, contains-live_ids limits m a.1)

  -- In a well-formed session the ids that the relay sends in a sync are exactly the ids of the
  -- connections that have a client.
  pub contains-collect_client_connection_ids :
      (limits : RelayLimitsConfig) (s : SessionState)
      → WellFormed limits s
      → contains x (collect_client_connection_ids s) ≡ is_some (get x s.clients)
  unfolding collect_client_connection_ids
  contains-collect_client_connection_ids limits s w =
      contains-sort (keys (unique (live_ids s.clients)))
      ∙ contains-unique (live_ids s.clients)
      ∙ contains-live_ids limits s.clients w.at_clients
