-- ===== src/Node/Events.antt =====
-- `RelayControlEvent` of crates/node-access-3role/src/bin/node-relay.rs and of the two-role node:
-- what the derived `Deserialize` reads of a text with the tag `type` and the renamed fields.
use node_access.Prelude.{
  ◌∙◌, ℕ, ◌≡◌, refl, Option, none, some, List, [], ◌∷◌, map, Text, str, text_eq, text_Eq, ◌==◌,
  if◌then◌else◌,
}
use node_access.Runtime.{Json, last_entry}
use node_access.Session.Ops.{sync_text, connected_text, disconnected_text, pong_text}

pub data RelayControlEvent : Type 0 where
  connected disconnected : Text → RelayControlEvent
  sync : List Text → RelayControlEvent
  pong : RelayControlEvent

and_then : {A B : Type 0} → (A → Option B) → Option A → Option B
and_then f none = none
and_then f (some a) = f a

module _ (json : Json) where
  open json use {Value, from_str, as_str, as_array, field}

  -- The strings of an array: a value of another kind is an error.
  strings : List Value → Option (List Text)
  unfolding and_then
  strings [] = some []
  strings (v ∷ vs) = and_then (λ s. and_then (λ ss. some (s ∷ ss)) (strings vs)) (as_str v)

  text_field : Text → Value → Option Text
  unfolding and_then
  text_field k v = and_then as_str (field k v)

  list_field : Text → Value → Option (List Text)
  unfolding and_then strings
  list_field k v = and_then (λ a. and_then strings (as_array a)) (field k v)

  read_kind : Value → Text → Option RelayControlEvent
  unfolding and_then text_field list_field
  read_kind v kind =
      if kind == str "connected"
      then and_then (λ id. some (connected id)) (text_field (str "connectionId") v)
      else if kind == str "disconnected"
      then and_then (λ id. some (disconnected id)) (text_field (str "connectionId") v)
      else if kind == str "sync"
      then and_then (λ ids. some (sync ids)) (list_field (str "connectionIds") v)
      else if kind == str "pong"
      then some pong
      else none

  unfoldable pub read_event : Text → Option RelayControlEvent
  unfolding and_then text_field read_kind
  read_event t = and_then (λ v. and_then (read_kind v) (text_field (str "type") v)) (from_str t)

  strings-map : (ids : List Text) → strings (map json.string ids) ≡ some ids
  unfolding strings and_then
  strings-map [] = refl
  strings-map (id ∷ ids) = rw (json.as_str-string id, strings-map ids) refl

  text_field-object :
      (k s : Text) (fs : List (Text × Value))
      → last_entry k fs ≡ some (json.string s)
      → text_field k (json.object fs) ≡ some s
  unfolding text_field and_then
  text_field-object k s fs e = rw (json.field-object k fs, e) (json.as_str-string s)

  list_field-object :
      (k : Text) (ids : List Text) (fs : List (Text × Value))
      → last_entry k fs ≡ some (json.array (map json.string ids))
      → list_field k (json.object fs) ≡ some ids
  unfolding list_field and_then
  list_field-object k ids fs e =
      rw (json.field-object k fs, e, json.as_array-array (map json.string ids)) (strings-map ids)

  read_event-object :
      (kind : Text) (fs : List (Text × Value))
      → last_entry (str "type") fs ≡ some (json.string kind)
      → read_event (json.to_string (json.object fs)) ≡ read_kind (json.object fs) kind
  unfolding read_event and_then
  read_event-object kind fs e =
      rw (json.from_str-to_string (json.object fs), text_field-object (str "type") kind fs e) refl

  -- A node reads each text that the relay sends on a control channel as the event that the relay
  -- means.
  pub read_event-relay :
      (id : Text) (ids : List Text) (ts : ℕ)
      → (read_event (connected_text json id) ≡ some (connected id))
        × (read_event (disconnected_text json id) ≡ some (disconnected id))
        × (read_event (sync_text json ids) ≡ some (sync ids))
        × (read_event (pong_text json ts) ≡ some pong)
  unfolding connected_text disconnected_text sync_text pong_text last_entry text_eq read_kind
      and_then
  read_event-relay id ids ts =
      let named : Text → List (Text × Value) =
        λ kind. (str "type", json.string kind) ∷ (str "connectionId", json.string id) ∷ [] in
      let listed : List (Text × Value) =
        (str "type", json.string (str "sync"))
        ∷ (str "connectionIds", json.array (map json.string ids))
        ∷ [] in
      let timed : List (Text × Value) =
        (str "type", json.string (str "pong")) ∷ (str "ts", json.number ts) ∷ [] in
      (
        read_event-object (str "connected") (named (str "connected")) refl
            ∙ rw (text_field-object (str "connectionId") id (named (str "connected")) refl),
        read_event-object (str "disconnected") (named (str "disconnected")) refl
            ∙ rw (text_field-object (str "connectionId") id (named (str "disconnected")) refl),
        read_event-object (str "sync") listed refl
            ∙ rw (list_field-object (str "connectionIds") ids listed refl),
        read_event-object (str "pong") timed refl,
      )
