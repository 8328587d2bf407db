-- ===== src/Base/HashMap.antt =====
-- Rust's `HashMap`, as an association list in the order of its iteration. That order is arbitrary in
-- Rust, so the theorems about the program hold for every list; the laws below fix what every
-- order shares.
use mathlib.Core.List.{◌++◌, append_assoc}
use gostly_ai_proxy.Base.{
  ◌+◌, ◌≤◌, ◌≡◌, refl, false, Option, none, some, List, [], ◌∷◌, arith, Eq, ◌==◌, eq_iff, eq_refl,
  if◌then◌else◌, Bool-cases, inl, inr, length, All,
}

abbrev pub HashMap {ℓ κ} : Type ℓ → Type κ → Type (ℓ ⊔ κ)
HashMap K V = List (K × V)

module _ {ℓ κ} {K : Type ℓ} {V : Type κ} where
  abbrev pub keys : HashMap K V → List K
  keys [] = []
  keys ((k, v) ∷ m) = k ∷ keys m

  abbrev pub values : HashMap K V → List V
  values [] = []
  values ((k, v) ∷ m) = v ∷ values m

module _ {ℓ κ} {K : Type ℓ} {V : Type κ} ⦃e : Eq K⦄ where
  unfoldable pub get : HashMap K V → K → Option V
  get [] k = none
  get ((j, v) ∷ m) k = if j == k then some v else get m k

  unfoldable pub insert : HashMap K V → K → V → HashMap K V
  insert [] k v = (k, v) ∷ []
  insert ((j, w) ∷ m) k v = if j == k then (k, v) ∷ m else (j, w) ∷ insert m k v

  unfoldable pub remove : HashMap K V → K → HashMap K V
  remove [] k = []
  remove ((j, w) ∷ m) k = let rest = remove m k in if j == k then rest else (j, w) ∷ rest

  pub get-empty : (k : K) → get [] k ≡ none
  unfolding get
  get-empty k = refl

  pub get-insert :
      (m : HashMap K V) (k j : K) (v : V)
      → get (insert m k v) j ≡ (if k == j then some v else get m j)
  unfolding get insert
  get-insert [] k j v = refl
  get-insert ((i, w) ∷ m) k j v =
      ground (arith, eq_iff k j, eq_iff i k, eq_iff i j, get-insert m k j v)

  pub get-insert_self : (m : HashMap K V) (k : K) (v : V) → get (insert m k v) k ≡ some v
  get-insert_self m k v = rw get-insert (rw (eq_refl k))

  pub get-remove :
      (m : HashMap K V) (k j : K) → get (remove m k) j ≡ (if k == j then none else get m j)
  unfolding get remove
  get-remove [] k j = ground arith
  get-remove ((i, w) ∷ m) k j = ground (arith, eq_iff k j, eq_iff i k, eq_iff i j, get-remove m k j)

  pub length-insert : (m : HashMap K V) (k : K) (v : V) → length (insert m k v) ≤ length m + 1
  unfolding insert
  length-insert [] k v = omega arith
  length-insert ((i, w) ∷ m) k v = ground (arith, length-insert m k v)

  -- What holds of every entry still holds after an insertion of an entry that has it.
  pub All-insert {μ} :
      (P : K × V → Type μ) (m : HashMap K V) (k : K) (v : V)
      → P (k, v)
      → All P m
      → All P (insert m k v)
  unfolding insert
  All-insert P [] k v p h = (p, tt)
  All-insert P ((i, w) ∷ m) k v p (q, h) = elim (Bool-cases (i == k)) [
    | inl same ↦ rw same (p, h)
    | inr other ↦ rw other (q, All-insert P m k v p h)
  ]

  pub All-remove {μ} : (P : K × V → Type μ) (m : HashMap K V) (k : K) → All P m → All P (remove m k)
  unfolding remove
  All-remove P [] k h = tt
  All-remove P ((i, w) ∷ m) k (q, h) = elim (Bool-cases (i == k)) [
    | inl same ↦ rw same (All-remove P m k h)
    | inr other ↦ rw other (q, All-remove P m k h)
  ]

  -- An entry that a lookup finds is one of the map's, under the key asked for.
  pub All-get {μ} :
      (P : K × V → Type μ) (m : HashMap K V) (k : K) {v : V} → All P m → get m k ≡ some v → P (k, v)
  unfolding get
  All-get P [] k h g = cc
  All-get P ((i, w) ∷ m) k {v} (q, h) g = elim (Bool-cases (i == k)) [
    | inl same ↦
        let here = (eq_iff i k).0 same in let found : w ≡ v = ground arith in rw (← here, ← found) q
    | inr other ↦ All-get P m k h (ground arith)
  ]

  -- Every key stands once.
  abbrev pub Unique : HashMap K V → Type κ
  Unique [] = Unit
  Unique ((k, v) ∷ m) = (get m k ≡ none) × Unique m

  pub insert-Unique : (m : HashMap K V) (k : K) (v : V) → Unique m → Unique (insert m k v)
  unfolding insert
  insert-Unique [] k v u = (get-empty k, tt)
  insert-Unique ((i, w) ∷ m) k v (fresh, u) = elim (Bool-cases (i == k)) [
    | inl same ↦ let here = (eq_iff i k).0 same in rw same (rw here at fresh, u)
    | inr other ↦
        rw other
          (rw get-insert (ground (arith, eq_iff k i, eq_iff i k, fresh)), insert-Unique m k v u)
  ]

  pub remove-Unique : (m : HashMap K V) (k : K) → Unique m → Unique (remove m k)
  unfolding remove
  remove-Unique [] k u = tt
  remove-Unique ((i, w) ∷ m) k (fresh, u) = elim (Bool-cases (i == k)) [
    | inl same ↦ rw same (remove-Unique m k u)
    | inr other ↦
        rw other
          (rw get-remove (ground (arith, eq_iff k i, eq_iff i k, fresh)), remove-Unique m k u)
  ]

  fresh_ne :
      (m : HashMap K V) (i k : K) (v : V) (r : HashMap K V)
      → get (m ++ (k, v) ∷ r) i ≡ none
      → (i == k) ≡ false
  unfolding get
  fresh_ne [] i k v r h = ground (arith, eq_iff i k, eq_iff k i)
  fresh_ne ((j, w) ∷ m) i k v r h = ground (arith, fresh_ne m i k v r)

  Unique-middle :
      (m : HashMap K V) (k : K) (v : V) (r : HashMap K V)
      → Unique (m ++ (k, v) ∷ r)
      → get m k ≡ none
  unfolding get
  Unique-middle [] k v r u = refl
  Unique-middle ((i, w) ∷ m) k v r (fresh, u) =
      ground (arith, Unique-middle m k v r u, fresh_ne m i k v r fresh)

  insert-append :
      (m : HashMap K V) (k : K) (v : V) → get m k ≡ none → insert m k v ≡ m ++ (k, v) ∷ []
  unfolding get insert
  insert-append [] k v h = refl
  insert-append ((i, w) ∷ m) k v h = ground (arith, insert-append m k v)

  -- Inserting a new key at the end of a map whose rest follows.
  pub insert-Unique_middle :
      (m : HashMap K V) (k : K) (v : V) (r : HashMap K V)
      → Unique (m ++ (k, v) ∷ r)
      → insert m k v ++ r ≡ m ++ (k, v) ∷ r
  insert-Unique_middle m k v r u =
      rw (insert-append m k v (Unique-middle m k v r u)) (append_assoc m ((k, v) ∷ []) r)
