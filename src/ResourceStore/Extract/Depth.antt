-- ===== src/ResourceStore/Extract/Depth.antt =====
-- Where an id is found: under a candidate name, at most three levels down.
use gostly_ai_proxy.Base.{
  ℕ, suc, ◌+◌, ◌≤◌, ◌≡◌, Option, none, some, List, arith, Text, ltb, Bool-cases, inl, inr, ◌⊎◌, ap,
  [], ◌∷◌, ◌++◌, All, Option-cases, codes,
}
use mathlib.Core.Option.{get_or, none-ne-some, some-injective}
use gostly_ai_proxy.Json.{Json, Items, Fields, get_field}
use gostly_ai_proxy.Json.Json.{array, object}
use gostly_ai_proxy.Json.Items.{no_items, item}
use gostly_ai_proxy.Json.Fields.{no_fields, field}
use gostly_ai_proxy.ResourceStore.Extract.{
  max_id_extraction_depth, strip_s, stringify_id, candidate_id, or_else, walk_for_id, walk_items,
  walk_fields, id_candidates, extract_id,
}

-- The names under which an id may stand: the hint, `id`, `_id`, and the name of the collection with
-- `_id` after it, without the `s` at its end where it has one.
pub data IsCandidate (collection : Text) : Option Text → Text → Type 0 where
  hinted : {hint : Text} → IsCandidate collection (some hint) hint
  plain_id : {hint : Option Text} → IsCandidate collection hint (codes "id")
  under_id : {hint : Option Text} → IsCandidate collection hint (codes "_id")
  singular_id :
      {hint : Option Text} (singular : Text)
      → collection ≡ singular ++ codes "s"
      → IsCandidate collection hint (singular ++ codes "_id")
  collection_id : {hint : Option Text} → IsCandidate collection hint (collection ++ codes "_id")

-- A text that is not empty is the id itself, a number is its digits.
pub data IsIdOf : Json → Text → Type 0 where
  of_text : (c : ℕ) (cs : Text) → IsIdOf (Json.string (c ∷ cs)) (c ∷ cs)
  of_number : (digits : Text) → IsIdOf (Json.number digits) digits

-- An id under a name that is called for, in an object so many levels inside a value.
mutual
  pub data IdAt (cands : Text → Type 0) : Json → ℕ → Text → Type 0 where
    here :
        {m : Fields} {name id : Text} {v : Json}
        → cands name
        → get_field m name ≡ some v
        → IsIdOf v id
        → IdAt cands (object m) 0 id
    in_object :
        {m : Fields} {n : ℕ} {id : Text} → InFields cands m n id → IdAt cands (object m) (suc n) id
    in_array :
        {a : Items} {n : ℕ} {id : Text} → InItems cands a n id → IdAt cands (array a) (suc n) id

  pub data InFields (cands : Text → Type 0) : Fields → ℕ → Text → Type 0 where
    this_field :
        {k : Text} {v : Json} {rest : Fields} {n : ℕ} {id : Text}
        → IdAt cands v n id
        → InFields cands (field k v rest) n id
    later_field :
        {k : Text} {v : Json} {rest : Fields} {n : ℕ} {id : Text}
        → InFields cands rest n id
        → InFields cands (field k v rest) n id

  pub data InItems (cands : Text → Type 0) : Items → ℕ → Text → Type 0 where
    this_item :
        {v : Json} {rest : Items} {n : ℕ} {id : Text}
        → IdAt cands v n id
        → InItems cands (item v rest) n id
    later_item :
        {v : Json} {rest : Items} {n : ℕ} {id : Text}
        → InItems cands rest n id
        → InItems cands (item v rest) n id

or_else_cases {ℓ} :
    {A : Type ℓ} (o p : Option A) (a : A) → or_else o p ≡ some a → (o ≡ some a) ⊎ (p ≡ some a)
or_else_cases none p a h = inr h
or_else_cases (some b) p a h = inl h

stringify_id-IsIdOf : (v : Json) (id : Text) → stringify_id v ≡ some id → IsIdOf v id
unfolding stringify_id
stringify_id-IsIdOf (Json.string []) id h = absurd (none-ne-some id h)
stringify_id-IsIdOf (Json.string (c ∷ cs)) id h = rw (← some-injective (c ∷ cs) id h) (of_text c cs)
stringify_id-IsIdOf (Json.number n) id h = rw (← some-injective n id h) (of_number n)
stringify_id-IsIdOf Json.null id h = absurd (none-ne-some id h)
stringify_id-IsIdOf (Json.boolean b) id h = absurd (none-ne-some id h)
stringify_id-IsIdOf (Json.array a) id h = absurd (none-ne-some id h)
stringify_id-IsIdOf (Json.object m) id h = absurd (none-ne-some id h)

candidate_id-here :
    (Named : Text → Type 0) (m : Fields) (cands : List Text) (id : Text)
    → All Named cands
    → candidate_id m cands ≡ some id
    → IdAt Named (object m) 0 id
unfolding candidate_id
candidate_id-here Named m [] id named h = absurd (none-ne-some id h)
candidate_id-here Named m (cand ∷ cands) id (name, named) h =
    elim (Option-cases (get_field m cand)) [
      | inl absent ↦ candidate_id-here Named m cands id named (rw absent at h)
      | inr (v, present) ↦
          elim (or_else_cases (stringify_id v) (candidate_id m cands) id (rw present at h)) [
            | inl found ↦ here name present (stringify_id-IsIdOf v id found)
            | inr later ↦ candidate_id-here Named m cands id named later
          ]
    ]

strip_s-append : (t s : Text) → strip_s t ≡ some s → t ≡ s ++ codes "s"
unfolding strip_s
strip_s-append [] s h = absurd (none-ne-some s h)
strip_s-append (x ∷ []) s h = ground (arith, h)
strip_s-append (x ∷ y ∷ ys) s h = elim (Option-cases (strip_s (y ∷ ys))) [
  | inl whole ↦ absurd (none-ne-some s (rw (whole, strip_s) at h))
  | inr (t, cut) ↦
      let same = some-injective (x ∷ t) s (rw (cut, strip_s) at h) in
      rw (← same) (ap (λ (r : Text). x ∷ r) (strip_s-append (y ∷ ys) t cut))
]

known-IsCandidate :
    (collection : Text) (hint : Option Text)
    → IsCandidate collection hint (get_or (strip_s collection) collection ++ codes "_id")
known-IsCandidate collection hint = elim (Option-cases (strip_s collection)) [
  | inl whole ↦ rw whole collection_id
  | inr (singular, cut) ↦ rw cut (singular_id singular (strip_s-append collection singular cut))
]

id_candidates-IsCandidate :
    (collection : Text) (hint : Option Text)
    → All (IsCandidate collection hint) (id_candidates collection hint)
id_candidates-IsCandidate collection none =
    (plain_id, (under_id, (known-IsCandidate collection none, tt)))
id_candidates-IsCandidate collection (some h) =
    (hinted, (plain_id, (under_id, (known-IsCandidate collection (some h), tt))))

module _ (Named : Text → Type 0) where
  mutual
    unfolding walk_for_id

    walk_for_id-IdAt :
        (v : Json) (cands : List Text) (d : ℕ) (id : Text)
        → All Named cands
        → walk_for_id v cands d ≡ some id
        → (n : ℕ) × IdAt Named v n id × (d + n ≤ 3)
    walk_for_id-IdAt (object m) cands d id named h =
        elim (Bool-cases (ltb max_id_extraction_depth d)) [
          | inl deep ↦ absurd (none-ne-some id (rw (deep, walk_for_id) at h))
          | inr ok ↦
              elim (or_else_cases (candidate_id m cands) (walk_fields m cands (d + 1)) id
                (rw (ok, walk_for_id) at h)) [
                  | inl found ↦
                      (0, candidate_id-here Named m cands id named found, ground (arith, ok))
                  | inr below ↦
                      let (n, at_n, bound) = walk_fields-InFields m cands (d + 1) id named below in
                      (suc n, in_object at_n, omega (arith, bound))
                ]
        ]
    walk_for_id-IdAt (array a) cands d id named h =
        elim (Bool-cases (ltb max_id_extraction_depth d)) [
          | inl deep ↦ absurd (none-ne-some id (rw (deep, walk_for_id) at h))
          | inr ok ↦
              let (n, at_n, bound) =
                walk_items-InItems a cands (d + 1) id named (rw (ok, walk_for_id) at h) in
              (suc n, in_array at_n, omega (arith, bound))
        ]
    walk_for_id-IdAt Json.null cands d id named h = absurd (none-ne-some id h)
    walk_for_id-IdAt (Json.boolean b) cands d id named h = absurd (none-ne-some id h)
    walk_for_id-IdAt (Json.number t) cands d id named h = absurd (none-ne-some id h)
    walk_for_id-IdAt (Json.string s) cands d id named h = absurd (none-ne-some id h)

    walk_items-InItems :
        (a : Items) (cands : List Text) (d : ℕ) (id : Text)
        → All Named cands
        → walk_items a cands d ≡ some id
        → (n : ℕ) × InItems Named a n id × (d + n ≤ 3)
    walk_items-InItems no_items cands d id named h = absurd (none-ne-some id h)
    walk_items-InItems (item v rest) cands d id named h =
        elim (or_else_cases (walk_for_id v cands d) (walk_items rest cands d) id h) [
          | inl first ↦
              let (n, at_n, bound) = walk_for_id-IdAt v cands d id named first in
              (n, this_item at_n, bound)
          | inr later ↦
              let (n, at_n, bound) = walk_items-InItems rest cands d id named later in
              (n, later_item at_n, bound)
        ]

    walk_fields-InFields :
        (m : Fields) (cands : List Text) (d : ℕ) (id : Text)
        → All Named cands
        → walk_fields m cands d ≡ some id
        → (n : ℕ) × InFields Named m n id × (d + n ≤ 3)
    walk_fields-InFields no_fields cands d id named h = absurd (none-ne-some id h)
    walk_fields-InFields (field k v rest) cands d id named h =
        elim (or_else_cases (walk_for_id v cands d) (walk_fields rest cands d) id h) [
          | inl first ↦
              let (n, at_n, bound) = walk_for_id-IdAt v cands d id named first in
              (n, this_field at_n, bound)
          | inr later ↦
              let (n, at_n, bound) = walk_fields-InFields rest cands d id named later in
              (n, later_field at_n, bound)
        ]

-- An id that is extracted stands in an object of the body, at most three levels down, as a text that
-- is not empty or a number, under the hint, `id`, `_id`, or the collection's name followed by `_id`,
-- which may have lost an `s` at its end.
pub extract_id-IdAt :
    (body : Json) (collection : Text) (hint : Option Text) (id : Text)
    → extract_id body collection hint ≡ some id
    → (n : ℕ) × IdAt (IsCandidate collection hint) body n id × (n ≤ 3)
unfolding extract_id
extract_id-IdAt body collection hint id h =
    let (n, at_n, bound) =
      walk_for_id-IdAt (IsCandidate collection hint) body (id_candidates collection hint) 0 id
        (id_candidates-IsCandidate collection hint) h in
    (n, at_n, omega (arith, bound))
