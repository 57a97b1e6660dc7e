-- ===== src/Session/Ids.antt =====
-- The connection ids that the relay tells a control socket, in crates/relay/src/session.rs: in
-- order, each once, and those with a client.
pub mod Members
use node_access.Prelude.{
  ℕ, ◌≡◌, ◌≢◌, ◌<◌, refl, sym, ap, Bool, true, false, ◌&&◌, ◌||◌, Option, none, some, List, [], ◌∷◌,
  Text, text_Eq, Bool-cases, Option-cases, inl, inr, ◌⊎◌, ◌↔◌, if◌then◌else◌, arith, ltb, eqb, ◌==◌,
  is_empty, text_eq_iff, All, length,
}
use node_access.HashMap.{HashMap, get, insert, keys}
use node_access.HashMap.Laws.{get-insert}
use node_access.Session.State.{PeerHandle, PeerId, SessionState}
use node_access.Session.Ops.{
  live_ids, unique, text_le, insert_sorted, sort, collect_client_connection_ids,
}
use node_access.Session.Routing.{Elem, here, there}

text_le_total : (s t : Text) → text_le s t ≡ false → text_le t s ≡ true
unfolding text_le
text_le_total [] t h = cc
text_le_total (x ∷ s) [] h = refl
text_le_total (x ∷ s) (y ∷ t) h = ground (arith, text_le_total s t)

text_le_antisym : (s t : Text) → text_le s t ≡ true → text_le t s ≡ true → s ≡ t
unfolding text_le
text_le_antisym [] [] h k = refl
text_le_antisym [] (y ∷ t) h k = cc
text_le_antisym (x ∷ s) [] h k = cc
text_le_antisym (x ∷ s) (y ∷ t) h k = ground (arith, text_le_antisym s t)

text_le_trans : (s t u : Text) → text_le s t ≡ true → text_le t u ≡ true → text_le s u ≡ true
unfolding text_le
text_le_trans [] t u h k = refl
text_le_trans (x ∷ s) [] u h k = cc
text_le_trans (x ∷ s) (y ∷ t) [] h k = cc
text_le_trans (x ∷ s) (y ∷ t) (z ∷ u) h k = ground (arith, text_le_trans s t u)

-- Strictly increasing in the order of `str`.
abbrev pub Increasing : List Text → Type 0
Increasing [] = Unit
Increasing (t ∷ ts) = All (λ u. (text_le t u ≡ true) × (t ≢ u)) ts × Increasing ts

All-insert_sorted {κ} :
    (P : Text → Type κ) (t : Text) (us : List Text) → P t → All P us → All P (insert_sorted t us)
unfolding insert_sorted
All-insert_sorted P t [] p a = (p, tt)
All-insert_sorted P t (u ∷ us) p a = elim (Bool-cases (text_le t u)) [
  | inl y ↦ rw y (p, a)
  | inr y ↦ rw y (a.0, All-insert_sorted P t us p a.1)
]

All-sort {κ} : (P : Text → Type κ) (ts : List Text) → All P ts → All P (sort ts)
unfolding sort
All-sort P [] a = tt
All-sort P (t ∷ ts) a = All-insert_sorted P t (sort ts) a.0 (All-sort P ts a.1)

-- What stands above `u` stands above what stands below `u`.
above :
    (t u : Text) (ws : List Text)
    → text_le t u ≡ true
    → All (λ w. t ≢ w) ws
    → All (λ w. (text_le u w ≡ true) × (u ≢ w)) ws
    → All (λ w. (text_le t w ≡ true) × (t ≢ w)) ws
above t u [] le ne a = tt
above t u (w ∷ ws) le ne a = ((text_le_trans t u w le a.0.0, ne.0), above t u ws le ne.1 a.1)

insert_sorted-Increasing :
    (t : Text) (us : List Text)
    → All (λ u. t ≢ u) us
    → Increasing us
    → Increasing (insert_sorted t us)
unfolding insert_sorted
insert_sorted-Increasing t [] ne i = (tt, tt)
insert_sorted-Increasing t (u ∷ us) ne i = elim (Bool-cases (text_le t u)) [
  | inl y ↦ rw y (((y, ne.0), above t u us y ne.1 i.0), i)
  | inr y ↦ rw y (
    All-insert_sorted _ t us (text_le_total t u y, λ e. ne.0 (sym e)) i.0,
    insert_sorted-Increasing t us ne.1 i.1,
  )
]

-- No text stands twice.
abbrev Single : List Text → Type 0
Single [] = Unit
Single (t ∷ ts) = All (λ u. t ≢ u) ts × Single ts

sort-Increasing : (ts : List Text) → Single ts → Increasing (sort ts)
unfolding sort
sort-Increasing [] u = tt
sort-Increasing (t ∷ ts) u =
    insert_sorted-Increasing t (sort ts) (All-sort _ ts u.0) (sort-Increasing ts u.1)

All-keys-insert {κ} :
    (P : Text → Type κ) (k : Text) (v : Unit {0}) (m : HashMap Text (Unit {0}))
    → P k
    → All P (keys m)
    → All P (keys (insert k v m))
unfolding insert
All-keys-insert P k v [] p a = (p, tt)
All-keys-insert P k v ((j, w) ∷ m) p a = elim (Bool-cases (j == k)) [
  | inl y ↦ rw y (p, a.1)
  | inr y ↦ rw y (a.0, All-keys-insert P k v m p a.1)
]

Single-keys-insert :
    (k : Text) (v : Unit {0}) (m : HashMap Text (Unit {0}))
    → Single (keys m)
    → Single (keys (insert k v m))
unfolding insert
Single-keys-insert k v [] u = (tt, tt)
Single-keys-insert k v ((j, w) ∷ m) u = elim (Bool-cases (j == k)) [
  | inl y ↦ rw (y, ← (text_eq_iff j k).0 y) u
  | inr y ↦ rw y (
    All-keys-insert _ k v m (λ e. ground (arith, text_eq_iff j k, e)) u.0,
    Single-keys-insert k v m u.1,
  )
]

Single-unique : (ids : List Text) → Single (keys (unique ids))
unfolding unique
Single-unique [] = tt
Single-unique (id ∷ ids) = Single-keys-insert id tt (unique ids) (Single-unique ids)

-- The ids that the relay sends in a sync stand each once and in the order of `str`, whatever order
-- the maps of the session are iterated in.
pub collect_client_connection_ids-Increasing :
    (s : SessionState) → Increasing (collect_client_connection_ids s)
unfolding collect_client_connection_ids
collect_client_connection_ids-Increasing s =
    sort-Increasing (keys (unique (live_ids s.clients))) (Single-unique (live_ids s.clients))
