-- ===== src/Json/Exact.antt =====
-- The values that `serde_json` prints and reads back as they are: without its feature
-- `float_roundtrip` a fraction may come back as a neighbour, its parser stops at 128 levels, and its
-- map, here a `BTreeMap`, has its keys in order.
use gostly_ai_proxy.Base.{
  ℕ, zero, suc, ◌≡◌, ap, Bool, true, false, not, ◌&&◌, ◌||◌, some, List, [], ◌∷◌, Text, text_eq,
  nat_eq, ◌==◌, eq_iff, codes, leb, length, all, is_ascii_digit, Bool-cases, inl, inr,
}
use gostly_ai_proxy.Uri.{text_leb}
use gostly_ai_proxy.Json.{
  Json, Items, Fields, null, boolean, number, string, array, object, no_items, item, no_fields,
  field, get_field, insert_field,
}

-- An integer of at most 18 digits, which fits an i64, in the form that is printed.
unfoldable pub is_natural : Text → Bool
is_natural [] = false
is_natural (c ∷ []) = is_ascii_digit c
is_natural (c ∷ d ∷ cs) = not (c == b'0') && all is_ascii_digit (c ∷ d ∷ cs) && leb (length cs) 16

unfoldable pub is_integer : Text → Bool
unfolding is_natural
is_integer [] = false
is_integer (c ∷ cs) = is_natural (c ∷ cs) || c == b'-' && is_natural cs && not (cs == codes "0")

abbrev pub field_keys : Fields → List Text
field_keys no_fields = []
field_keys (field k v rest) = k ∷ field_keys rest

-- Each key before the next one, and not the same.
unfoldable pub is_sorted : List Text → Bool
unfolding text_leb
is_sorted [] = true
is_sorted (k ∷ []) = true
is_sorted (k ∷ j ∷ ks) = text_leb k j && not (k == j) && is_sorted (j ∷ ks)

-- A value of integers, at most so many levels deep, with its keys in order.
abbrev mutual
  pub IsExact : ℕ → Json → Type 0
  IsExact d null = Unit
  IsExact d (boolean b) = Unit
  IsExact d (string s) = Unit
  IsExact d (number n) = is_integer n ≡ true
  IsExact zero (array a) = ⊥
  IsExact (suc d) (array a) = ExactItems d a
  IsExact zero (object m) = ⊥
  IsExact (suc d) (object m) = (is_sorted (field_keys m) ≡ true) × ExactFields d m

  pub ExactItems : ℕ → Items → Type 0
  ExactItems d no_items = Unit
  ExactItems d (item v rest) = IsExact d v × ExactItems d rest

  pub ExactFields : ℕ → Fields → Type 0
  ExactFields d no_fields = Unit
  ExactFields d (field k v rest) = IsExact d v × ExactFields d rest

field_keys-insert :
    (m : Fields) (k : Text) (v w : Json)
    → get_field m k ≡ some v
    → field_keys (insert_field m k w) ≡ field_keys m
unfolding get_field insert_field
field_keys-insert no_fields k v w h = cc
field_keys-insert (field j u rest) k v w h = elim (Bool-cases (j == k)) [
  | inl same ↦ rw same (ap (λ (x : Text). x ∷ field_keys rest) (cc ((eq_iff j k).0 same)))
  | inr other ↦
      rw other (ap (λ (ks : List Text). j ∷ ks) (field_keys-insert rest k v w (rw other at h)))
]

ExactFields-insert :
    (d : ℕ) (m : Fields) (k : Text) (w : Json)
    → ExactFields d m
    → IsExact d w
    → ExactFields d (insert_field m k w)
unfolding insert_field
ExactFields-insert d no_fields k w h e = (e, tt)
ExactFields-insert d (field j u rest) k w (h, hs) e = elim (Bool-cases (j == k)) [
  | inl same ↦ rw same (e, hs)
  | inr other ↦ rw other (h, ExactFields-insert d rest k w hs e)
]

-- A text in place of a field's value.
pub insert_field-IsExact :
    (d : ℕ) (m : Fields) (k s : Text) (v : Json)
    → get_field m k ≡ some v
    → IsExact d (object m)
    → IsExact d (object (insert_field m k (string s)))
insert_field-IsExact zero m k s v h e = elim e [ ]
insert_field-IsExact (suc d) m k s v h (sorted, e) =
    (rw (field_keys-insert m k v (string s) h) sorted, ExactFields-insert d m k (string s) e tt)
