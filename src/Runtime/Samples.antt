-- ===== src/Runtime/Samples.antt =====
-- Instances of the interfaces, which show that their laws can be met: channels as a function from
-- numbers to queues, and values as the texts that stand for them.
use node_access.Prelude.{
  ℕ, zero, suc, ◌<◌, ◌≡◌, refl, ap, Bool, not, ◌&&◌, Option, none, some, List, [], ◌∷◌, ◌++◌, ltb,
  ◌==◌, if◌then◌else◌, length, take, drop, Text, nat_eq, arith, length-append, text_Eq,
}
use node_access.Runtime.{Channels, Json, SendResult, sent, full, closed, last_entry}

pub record Channel (M : Type 0) : Type 0 where
  pub queue : List M
  pub capacity : ℕ
  pub is_closed : Bool

module _ (M : Type 0) where
  abbrev pub Network : Type 0
  Network = ℕ → Channel M

  unfoldable pub has_place : Channel M → Bool
  has_place c = not c.is_closed && ltb (length c.queue) c.capacity

  unfoldable pub put : ℕ → M → Network → Network
  unfolding has_place
  put c m n d =
      if c == d && has_place (n c) then record (n d) { queue = (n d).queue ++ m ∷ [] } else n d

  unfoldable pub answer : Channel M → SendResult
  answer c = if c.is_closed then closed else if ltb (length c.queue) c.capacity then sent else full

  pub put-queue :
      (c d : ℕ) (m : M) (n : Network)
      → (put c m n d).queue ≡ (
          if c == d && (not (n c).is_closed && ltb (length (n c).queue) (n c).capacity)
          then (n d).queue ++ m ∷ []
          else (n d).queue)
  unfolding put
  put-queue c d m n = ground arith

  pub put-capacity : (c d : ℕ) (m : M) (n : Network) → (put c m n d).capacity ≡ (n d).capacity
  unfolding put
  put-capacity c d m n = ground arith

  pub put-is_closed : (c d : ℕ) (m : M) (n : Network) → (put c m n d).is_closed ≡ (n d).is_closed
  unfolding put
  put-is_closed c d m n = ground arith

  pub answer_lem :
      (c : Channel M)
      → answer c
        ≡ (if c.is_closed then closed else if ltb (length c.queue) c.capacity then sent else full)
  unfolding answer
  answer_lem c = refl

  abbrev pub sample_channels : Channels M
  sample_channels = record {
    Net = Network;
    try_send = λ c m n. (put c m n, answer (n c));
    queued = λ c n. (n c).queue;
    capacity = λ c n. (n c).capacity;
    is_closed = λ c n. (n c).is_closed;
    send_answer = λ c m n. answer_lem (n c);
    send_queued = put-queue;
    send_capacity = put-capacity;
    send_closed = put-is_closed;
  }

-- A list of texts as one text: each behind its length.
unfoldable pub pack : List Text → Text
pack [] = []
pack (t ∷ ts) = length t ∷ (t ++ pack ts)

cons_some : Text → Option (List Text) → Option (List Text)
cons_some t none = none
cons_some t (some ts) = some (t ∷ ts)

unfoldable pub unpack : ℕ → Text → Option (List Text)
unfolding cons_some
unpack zero s = none
unpack (suc fuel) [] = some []
unpack (suc fuel) (k ∷ s) = cons_some (take k s) (unpack fuel (drop k s))

pub take-length-append : (s t : Text) → take (length s) (s ++ t) ≡ s
take-length-append [] t = refl
take-length-append (c ∷ s) t = ap (◌∷◌ c) (take-length-append s t)

pub drop-length-append : (s t : Text) → drop (length s) (s ++ t) ≡ t
drop-length-append [] t = refl
drop-length-append (c ∷ s) t = drop-length-append s t

unpack-pack :
    (fuel : ℕ) (ts : List Text) → length (pack ts) < fuel → unpack fuel (pack ts) ≡ some ts
unfolding unpack pack
unpack-pack zero ts h = elim h [ ]
unpack-pack (suc fuel) [] h = refl
unpack-pack (suc fuel) (t ∷ ts) h = rw (
  take-length-append t (pack ts),
  drop-length-append t (pack ts),
  unpack-pack fuel ts (omega (arith, length-append t (pack ts))),
)

unfoldable pub unpack_all : Text → Option (List Text)
unfolding unpack
unpack_all s = unpack (suc (length s)) s

unpack_all-pack : (ts : List Text) → unpack_all (pack ts) ≡ some ts
unfolding unpack_all
unpack_all-pack ts = unpack-pack (suc (length (pack ts))) ts (omega arith)

unfoldable pub flat : List (Text × Text) → List Text
flat [] = []
flat ((k, v) ∷ fs) = k ∷ v ∷ flat fs

unfoldable pub pairs : List Text → List (Text × Text)
pairs [] = []
pairs (k ∷ []) = []
pairs (k ∷ v ∷ ts) = (k, v) ∷ pairs ts

pairs-flat : (fs : List (Text × Text)) → pairs (flat fs) ≡ fs
unfolding pairs flat
pairs-flat [] = refl
pairs-flat ((k, v) ∷ fs) = ap (◌∷◌ (k, v)) (pairs-flat fs)

-- A value begins with its tag: 0 for a string, 1 for a number, 2 for an array, 3 for an object.
unfoldable pub sample_as_str : Text → Option Text
sample_as_str [] = none
sample_as_str (zero ∷ s) = some s
sample_as_str (suc t ∷ s) = none

unfoldable pub sample_as_array : Text → Option (List Text)
unfolding unpack_all
sample_as_array [] = none
sample_as_array (t ∷ s) = if t == 2 then unpack_all s else none

field_in : Text → Option (List Text) → Option Text
field_in k none = none
field_in k (some ts) = last_entry k (pairs ts)

unfoldable pub sample_field : Text → Text → Option Text
unfolding unpack_all pairs last_entry field_in
sample_field k [] = none
sample_field k (t ∷ s) = if t == 3 then field_in k (unpack_all s) else none

pub sample_as_array-array : (ts : List Text) → sample_as_array (2 ∷ pack ts) ≡ some ts
sample_as_array-array ts = unfold sample_as_array in unpack_all-pack ts

pub sample_field-object :
    (k : Text) (fs : List (Text × Text)) → sample_field k (3 ∷ pack (flat fs)) ≡ last_entry k fs
unfolding sample_field
sample_field-object k fs = rw (unpack_all-pack (flat fs), field_in, pairs-flat fs)

pub sample_as_str-string : (s : Text) → sample_as_str (0 ∷ s) ≡ some s
unfolding sample_as_str
sample_as_str-string s = refl

abbrev pub sample_json : Json
sample_json = record {
  Value = Text;
  string = λ s. 0 ∷ s;
  number = λ n. 1 ∷ n ∷ [];
  array = λ vs. 2 ∷ pack vs;
  object = λ fs. 3 ∷ pack (flat fs);
  to_string = λ v. v;
  from_str = λ s. some s;
  as_str = sample_as_str;
  as_array = sample_as_array;
  field = sample_field;
  from_str-to_string = λ v. refl;
  as_str-string = sample_as_str-string;
  as_array-array = sample_as_array-array;
  field-object = sample_field-object;
}
