-- ===== src/HashMap/Entries.antt =====
-- A predicate of every entry of a map, and what the operations keep of it.
use mathlib.Core.Path.{subst₂}
use node_access.Prelude.{◌≡◌, Bool, some, [], ◌∷◌, Eq, ◌==◌, Bool-cases, inl, inr, All}
use node_access.HashMap.{HashMap, values, get, insert, remove, retain}

module _ {ℓ κ μ} {K : Type ℓ} {V : Type κ} (P : K → V → Type μ) where
  abbrev pub Entries : HashMap K V → Type μ
  Entries [] = Unit
  Entries ((k, v) ∷ m) = P k v × Entries m

module _ {ℓ κ μ} {K : Type ℓ} {V : Type κ} (P : K → V → Type μ) ⦃e : Eq K⦄ where
  pub Entries-insert :
      (k : K) (v : V) (m : HashMap K V) → P k v → Entries P m → Entries P (insert k v m)
  unfolding insert
  Entries-insert k v [] p h = (p, tt)
  Entries-insert k v ((j, w) ∷ m) p h = elim (Bool-cases (j == k)) [
    | inl y ↦ rw y (p, h.1)
    | inr y ↦ rw y (h.0, Entries-insert k v m p h.1)
  ]

  pub Entries-remove : (k : K) (m : HashMap K V) → Entries P m → Entries P (remove k m)
  unfolding remove
  Entries-remove k [] h = tt
  Entries-remove k ((j, w) ∷ m) h = elim (Bool-cases (j == k)) [
    | inl y ↦ rw y (Entries-remove k m h.1)
    | inr y ↦ rw y (h.0, Entries-remove k m h.1)
  ]

  pub Entries-retain : (p : V → Bool) (m : HashMap K V) → Entries P m → Entries P (retain p m)
  unfolding retain
  Entries-retain p [] h = tt
  Entries-retain p ((j, w) ∷ m) h = elim (Bool-cases (p w)) [
    | inl y ↦ rw y (h.0, Entries-retain p m h.1)
    | inr y ↦ rw y (Entries-retain p m h.1)
  ]

  pub Entries-get : (k : K) (m : HashMap K V) {v : V} → Entries P m → get k m ≡ some v → P k v
  unfolding get
  Entries-get k [] h q = cc
  Entries-get k ((j, w) ∷ m) {v} h q = elim (Bool-cases (j == k)) [
    | inl y ↦ let q' : some w ≡ some v = rw y at q in subst₂ P ((e.decides j k).0 y) (cc q') h.0
    | inr y ↦ Entries-get k m h.1 (rw y at q)
  ]

-- A predicate of the values alone passes to the list of the values.
pub Entries-values {ℓ κ μ} :
    {K : Type ℓ} {V : Type κ} (P : V → Type μ) (m : HashMap K V)
    → Entries (λ _ v. P v) m
    → All P (values m)
Entries-values P [] h = tt
Entries-values P ((k, v) ∷ m) h = (h.0, Entries-values P m h.1)

-- Weakening of the predicate.
pub Entries-weaken {ℓ κ μ ν} :
    {K : Type ℓ} {V : Type κ} (P : K → V → Type μ) (Q : K → V → Type ν) (m : HashMap K V)
    → ((k : K) (v : V) → P k v → Q k v)
    → Entries P m
    → Entries Q m
Entries-weaken P Q [] f h = tt
Entries-weaken P Q ((k, v) ∷ m) f h = (f k v h.0, Entries-weaken P Q m f h.1)
