-- ===== src/HashMap/Laws.antt =====
-- What the maps' operations do to a lookup, to the size, and to the values.
use node_access.Prelude.{
  ℕ, ◌+◌, ◌≤◌, ◌<◌, ◌≡◌, refl, Option, none, some, [], ◌∷◌, arith, Eq, ◌==◌, if◌then◌else◌, length,
  eq_self, Bool-cases, inl, inr,
}
use node_access.HashMap.{HashMap, sum_by, get, insert, remove}

-- The share of a key in `sum_by`.
abbrev pub measure {ℓ} : {V : Type ℓ} → (V → ℕ) → Option V → ℕ
measure f none = 0
measure f (some v) = f v

module _ {ℓ κ} {K : Type ℓ} {V : Type κ} ⦃e : Eq K⦄ where
  pub get-insert :
      (k j : K) (v : V) (m : HashMap K V)
      → get j (insert k v m) ≡ (if k == j then some v else get j m)
  unfolding get insert
  get-insert k j v [] = refl
  get-insert k j v ((i, w) ∷ m) =
      ground (arith, e.decides k j, e.decides i k, e.decides i j, get-insert k j v m)

  pub get-remove :
      (k j : K) (m : HashMap K V) → get j (remove k m) ≡ (if k == j then none else get j m)
  unfolding get remove
  get-remove k j [] = ground arith
  get-remove k j ((i, w) ∷ m) =
      ground (arith, e.decides k j, e.decides i k, e.decides i j, get-remove k j m)

  -- Inserting takes the old value's share of the sum away and adds the new one's.
  pub sum_by-insert :
      (f : V → ℕ) (k : K) (v : V) (m : HashMap K V)
      → sum_by f (insert k v m) + measure f (get k m) ≡ sum_by f m + f v
  unfolding get insert
  sum_by-insert f k v [] = omega arith
  sum_by-insert f k v ((i, w) ∷ m) = ground (arith, sum_by-insert f k v m)

  pub sum_by-remove :
      (f : V → ℕ) (k : K) (m : HashMap K V)
      → sum_by f (remove k m) + measure f (get k m) ≤ sum_by f m
  unfolding get remove
  sum_by-remove f k [] = omega arith
  sum_by-remove f k ((i, w) ∷ m) = ground (arith, sum_by-remove f k m)

  pub length-insert :
      (k : K) (v : V) (m : HashMap K V)
      → length (insert k v m) + measure (λ _. 1) (get k m) ≡ length m + 1
  unfolding get insert
  length-insert k v [] = omega arith
  length-insert k v ((i, w) ∷ m) = ground (arith, length-insert k v m)

  pub length-remove : (k : K) (m : HashMap K V) → length (remove k m) ≤ length m
  unfolding remove
  length-remove k [] = omega arith
  length-remove k ((i, w) ∷ m) = ground (arith, length-remove k m)

  pub length-insert_pos : (k : K) (v : V) (m : HashMap K V) → 0 < length (insert k v m)
  unfolding insert
  length-insert_pos k v [] = omega arith
  length-insert_pos k v ((i, w) ∷ m) = ground arith

  -- The second of two insertions under one key is the one that stays.
  pub insert-insert : (k : K) (v w : V) (m : HashMap K V) → insert k v (insert k w m) ≡ insert k v m
  unfolding insert
  insert-insert k v w [] = rw (eq_self k)
  insert-insert k v w ((i, u) ∷ m) = elim (Bool-cases (i == k)) [
    | inl y ↦ rw (y, eq_self k)
    | inr y ↦ rw (y, y, insert-insert k v w m)
  ]

  -- Removing a key undoes an insertion under it.
  pub remove-insert : (k : K) (v : V) (m : HashMap K V) → remove k (insert k v m) ≡ remove k m
  unfolding insert remove
  remove-insert k v [] = rw (eq_self k)
  remove-insert k v ((i, u) ∷ m) = elim (Bool-cases (i == k)) [
    | inl y ↦ rw (y, eq_self k)
    | inr y ↦ rw (y, y, remove-insert k v m)
  ]

  pub get-remove_self : (k : K) (m : HashMap K V) → get k (remove k m) ≡ none
  get-remove_self k m = rw (get-remove k k m, eq_self k)
