-- ===== src/Runtime.antt =====
-- The third-party code that the program rests on, as interfaces: tokio's bounded channels and
-- serde_json's values. Each is a record of operations with the documented behaviour as its laws.
pub mod Samples
use node_access.Prelude.{
  ℕ, ◌≡◌, Bool, true, false, not, ◌&&◌, Option, some, List, [], ◌∷◌, ◌++◌, ltb, ◌==◌, if◌then◌else◌,
  length, Text, nat_eq, text_Eq, none,
}

-- What `Sender::try_send` answers: `Ok(())`, `TrySendError::Full` or `TrySendError::Closed`.
pub data SendResult : Type 0 where
  sent full closed : SendResult

-- A network of bounded channels for messages of type `M`. A sender is the number of its channel;
-- `queued` lists what the receiver has not taken yet, oldest first.
pub record Channels (M : Type 0) : Type 1 where
  pub Net : Type 0
  pub try_send : ℕ → M → Net → Net × SendResult
  pub queued : ℕ → Net → List M
  pub capacity : ℕ → Net → ℕ
  pub is_closed : ℕ → Net → Bool
  pub send_answer :
      (c : ℕ) (m : M) (n : Net)
      → (try_send c m n).1 ≡ (
          if is_closed c n
          then closed
          else if ltb (length (queued c n)) (capacity c n)
          then sent
          else full)
  pub send_queued :
      (c d : ℕ) (m : M) (n : Net)
      → queued d (try_send c m n).0 ≡ (
          if c == d && (not (is_closed c n) && ltb (length (queued c n)) (capacity c n))
          then queued d n ++ m ∷ []
          else queued d n)
  pub send_capacity : (c d : ℕ) (m : M) (n : Net) → capacity d (try_send c m n).0 ≡ capacity d n
  pub send_closed : (c d : ℕ) (m : M) (n : Net) → is_closed d (try_send c m n).0 ≡ is_closed d n

-- The entry of a key: in an object built key by key, a later one replaces an earlier one.
unfoldable pub last_entry {ℓ} : {V : Type ℓ} → Text → List (Text × V) → Option V
last_entry k [] = none
last_entry k ((j, v) ∷ fs) = elim (last_entry k fs) [
  | some w ↦ some w
  | none ↦ if j == k then some v else none
]

-- JSON values, their text, and the accessors of `serde_json::Value`.
pub record Json : Type 1 where
  pub Value : Type 0
  pub string : Text → Value
  pub number : ℕ → Value
  pub array : List Value → Value
  pub object : List (Text × Value) → Value
  pub to_string : Value → Text
  pub from_str : Text → Option Value
  pub as_str : Value → Option Text
  pub as_array : Value → Option (List Value)
  pub field : Text → Value → Option Value
  pub from_str-to_string : (v : Value) → from_str (to_string v) ≡ some v
  pub as_str-string : (s : Text) → as_str (string s) ≡ some s
  pub as_array-array : (vs : List Value) → as_array (array vs) ≡ some vs
  pub field-object : (k : Text) (fs : List (Text × Value)) → field k (object fs) ≡ last_entry k fs
