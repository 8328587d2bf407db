-- ===== src/ResourceStore/Extract.antt =====
-- Finding the id of a captured body: `extract_id`, `walk_for_id` and `stringify_id` of
-- src/resource_store.rs.
pub mod Depth
use gostly_ai_proxy.Base.{
  ℕ, ◌+◌, Option, none, some, List, [], ◌∷◌, ◌++◌, Text, codes, ltb, nat_beq, if◌then◌else◌,
}
use mathlib.Core.Option.{get_or}
use gostly_ai_proxy.Json.{Json, Items, Fields, get_field}
use gostly_ai_proxy.Json.Json.{number, string, array, object}
use gostly_ai_proxy.Json.Items.{no_items, item}
use gostly_ai_proxy.Json.Fields.{no_fields, field}

-- `MAX_ID_EXTRACTION_DEPTH`.
abbrev pub max_id_extraction_depth : ℕ
max_id_extraction_depth = 3

-- `strip_suffix('s')`.
unfoldable pub strip_s : Text → Option Text
strip_s [] = none
strip_s (x ∷ []) = if nat_beq x b's' then some [] else none
strip_s (x ∷ y ∷ ys) = elim (strip_s (y ∷ ys)) [ none ↦ none | some t ↦ some (x ∷ t) ]

unfoldable pub stringify_id : Json → Option Text
stringify_id (string []) = none
stringify_id (string (c ∷ cs)) = some (c ∷ cs)
stringify_id (number n) = some n
stringify_id _ = none

abbrev pub id_of : Option Json → Option Text
id_of none = none
id_of (some v) = stringify_id v

abbrev pub or_else {ℓ} : {A : Type ℓ} → Option A → Option A → Option A
or_else none b = b
or_else (some a) b = some a

-- The first loop: a candidate at this level.
unfoldable pub candidate_id : Fields → List Text → Option Text
unfolding stringify_id
candidate_id m [] = none
candidate_id m (cand ∷ cands) = or_else (id_of (get_field m cand)) (candidate_id m cands)

unfoldable mutual
  pub walk_for_id : Json → List Text → ℕ → Option Text
  walk_for_id (object m) candidates depth =
      let below = walk_fields m candidates (depth + 1) in
      if ltb max_id_extraction_depth depth then none else or_else (candidate_id m candidates) below
  walk_for_id (array arr) candidates depth =
      let below = walk_items arr candidates (depth + 1) in
      if ltb max_id_extraction_depth depth then none else below
  walk_for_id _ candidates depth = none

  pub walk_items : Items → List Text → ℕ → Option Text
  walk_items no_items candidates depth = none
  walk_items (item v rest) candidates depth =
      or_else (walk_for_id v candidates depth) (walk_items rest candidates depth)

  pub walk_fields : Fields → List Text → ℕ → Option Text
  walk_fields no_fields candidates depth = none
  walk_fields (field k v rest) candidates depth =
      or_else (walk_for_id v candidates depth) (walk_fields rest candidates depth)

abbrev pub id_candidates : Text → Option Text → List Text
id_candidates collection hint =
    let singular = get_or (strip_s collection) collection in
    let known = codes "id" ∷ codes "_id" ∷ (singular ++ codes "_id") ∷ [] in
    elim hint [ none ↦ known | some h ↦ h ∷ known ]

unfoldable pub extract_id : Json → Text → Option Text → Option Text
unfolding strip_s walk_for_id candidate_id
extract_id body collection hint = walk_for_id body (id_candidates collection hint) 0
