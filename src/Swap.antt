-- ===== src/Swap.antt =====
-- Smart swap (src/matcher.rs): the structural match, the differences that a recorded response shows,
-- and their substitution. Reading and printing JSON is `serde_json`'s, as the record `JsonSerde`.
pub mod Evidence
use gostly_ai_proxy.Base.{
  ℕ, zero, suc, ◌-◌, Bool, true, false, not, ◌&&◌, ◌||◌, Option, none, some, List, [], ◌∷◌, ◌++◌,
  map, Text, text_eq, nat_eq, ◌==◌, leb, nat_beq, if◌then◌else◌, find, length, split, contains,
  starts_with, utf8, byte_len, is_ascii_alphanumeric,
}
use mathlib.Core.List.{reverse}
use gostly_ai_proxy.Base.HashMap
use gostly_ai_proxy.Base.HashMap.{HashMap}
use gostly_ai_proxy.Types.{MockEntry}
use gostly_ai_proxy.Json.{Json, Items, Fields, get_field}
use gostly_ai_proxy.Json.Json.{string, array, object}
use gostly_ai_proxy.Json.Items.{no_items, item}
use gostly_ai_proxy.Json.Fields.{no_fields, field}
use gostly_ai_proxy.Uri.{key_value, split_uri, is_dynamic_segment, paths_match}

pub record JsonSerde : Type 0 where
  -- `serde_json::from_str::<Value>(s).ok()` and `serde_json::to_string(&v).ok()`.
  pub parse : Text → Option Json
  pub print : Json → Option Text

abbrev pub Substitutions : Type 0
Substitutions = HashMap Text Text

-- `parse_query`: a later parameter of the same name wins.
abbrev collect_params : HashMap Text Text → List Text → HashMap Text Text
collect_params m [] = m
collect_params m (kv ∷ kvs) = let p = key_value kv in collect_params (HashMap.insert m p.0 p.1) kvs

unfoldable pub parse_query : Text → HashMap Text Text
unfolding split key_value
parse_query [] = []
parse_query (c ∷ cs) = collect_params [] (split b'&' (c ∷ cs))

-- `collect_value_diffs`.
unfoldable mutual
  pub collect_value_diffs : Json → Json → List (Text × Text)
  collect_value_diffs (string r) (string i) = if r == i then [] else (r, i) ∷ []
  collect_value_diffs (object r) (object i) = field_diffs r i
  collect_value_diffs (array r) (array i) = item_diffs r i
  collect_value_diffs _ _ = []

  pub field_diffs : Fields → Fields → List (Text × Text)
  field_diffs no_fields inc = []
  field_diffs (field key rec_val rest) inc =
      let others = field_diffs rest inc in
      elim (get_field inc key) [
        | none ↦ others
        | some inc_val ↦ collect_value_diffs rec_val inc_val ++ others
      ]

  pub item_diffs : Items → Items → List (Text × Text)
  item_diffs no_items inc = []
  item_diffs (item rv rest) no_items = []
  item_diffs (item rv rest) (item iv inc) = collect_value_diffs rv iv ++ item_diffs rest inc

abbrev replaced : Text → Option Text → Text
replaced s none = s
replaced s (some replacement) = replacement

unfoldable mutual
  pub substitute_in_json : Json → Substitutions → Json
  substitute_in_json (string s) subs = string (replaced s (HashMap.get subs s))
  substitute_in_json (object m) subs = object (substitute_in_fields m subs)
  substitute_in_json (array arr) subs = array (substitute_in_items arr subs)
  substitute_in_json v subs = v

  pub substitute_in_fields : Fields → Substitutions → Fields
  substitute_in_fields no_fields subs = no_fields
  substitute_in_fields (field k v rest) subs =
      field k (substitute_in_json v subs) (substitute_in_fields rest subs)

  pub substitute_in_items : Items → Substitutions → Items
  substitute_in_items no_items subs = no_items
  substitute_in_items (item v rest) subs =
      item (substitute_in_json v subs) (substitute_in_items rest subs)

abbrev is_id_byte : ℕ → Bool
is_id_byte b = is_ascii_alphanumeric b || b == b'-' || b == b'_'

-- The byte before or after a match, if there is one.
abbrev is_boundary : Option ℕ → Bool
is_boundary none = true
is_boundary (some b) = not (is_id_byte b)

abbrev byte_at : List ℕ → ℕ → Option ℕ
byte_at [] n = none
byte_at (b ∷ bs) zero = some b
byte_at (b ∷ bs) (suc n) = byte_at bs n

-- The loop over the bytes: those still to be skipped after a match, and the byte before. A byte that
-- is kept is pushed `as char`.
unfoldable pub replace_bytes : List ℕ → Text → ℕ → Option ℕ → List ℕ → Text
unfolding starts_with
replace_bytes pattern to skip previous [] = []
replace_bytes pattern to (suc skip) previous (b ∷ bs) = replace_bytes pattern to skip (some b) bs
replace_bytes pattern to zero previous (b ∷ bs) =
    let matched =
      starts_with (b ∷ bs) pattern
      && is_boundary previous
      && is_boundary (byte_at (b ∷ bs) (length pattern)) in
    elim matched [
      | true ↦ to ++ replace_bytes pattern to (length pattern - 1) (some b) bs
      | false ↦ b ∷ replace_bytes pattern to zero (some b) bs
    ]

unfoldable pub replace_at_word_boundary : Text → Text → Text → Text
unfolding replace_bytes contains utf8
replace_at_word_boundary text from to =
    if from == [] || not (contains text from)
    then text
    else replace_bytes (utf8 from) to zero none (utf8 text)

-- `sort_by` on descending lengths, which is stable.
abbrev insert_longest : Text × Text → List (Text × Text) → List (Text × Text)
insert_longest p [] = p ∷ []
insert_longest p (q ∷ qs) =
    if leb (byte_len q.0) (byte_len p.0) then p ∷ q ∷ qs else q ∷ insert_longest p qs

abbrev longest_first : List (Text × Text) → List (Text × Text)
longest_first [] = []
longest_first (p ∷ ps) = insert_longest p (longest_first ps)

abbrev replace_all : Text → List (Text × Text) → Text
replace_all result [] = result
replace_all result ((from, to) ∷ pairs) =
    replace_all (replace_at_word_boundary result from to) pairs

abbrev printed_or : Text → Option Text → Text
printed_or fallback none = fallback
printed_or fallback (some s) = s

unfoldable pub apply_substitutions_to_json : JsonSerde → Text → Substitutions → Text
unfolding substitute_in_json replace_at_word_boundary byte_len
apply_substitutions_to_json json body [] = body
apply_substitutions_to_json json body (s ∷ subs) =
    let plain = replace_all body (longest_first (s ∷ subs)) in
    elim (json.parse body) [
      | none ↦ plain
      | some val ↦ printed_or plain (json.print (substitute_in_json val (s ∷ subs)))
    ]

-- The evidence criterion: a pair is kept only where the recorded response shows the recorded value.
abbrev pub add_traceable : Text → Text → Text → Substitutions → Substitutions
add_traceable response from to subs =
    if contains response from then HashMap.insert subs from to else subs

unfoldable pub add_query_diffs :
    Text → HashMap Text Text → HashMap Text Text → Substitutions → Substitutions
add_query_diffs response [] inc_params subs = subs
add_query_diffs response ((key, rec_val) ∷ rec_params) inc_params subs =
    add_query_diffs response rec_params inc_params (elim (HashMap.get inc_params key) [
      | none ↦ subs
      | some inc_val ↦
          if rec_val == inc_val then subs else add_traceable response rec_val inc_val subs
    ])

unfoldable pub add_body_diffs : Text → List (Text × Text) → Substitutions → Substitutions
add_body_diffs response [] subs = subs
add_body_diffs response ((rec_val, inc_val) ∷ diffs) subs =
    add_body_diffs response diffs (add_traceable response rec_val inc_val subs)

abbrev diffs_of : Option Json → Option Json → List (Text × Text)
diffs_of (some rec_json) (some inc_json) = collect_value_diffs rec_json inc_json
diffs_of _ _ = []

unfoldable pub body_diffs : JsonSerde → Text → Text → List (Text × Text)
unfolding collect_value_diffs
body_diffs json recorded body =
    if recorded == [] || body == [] || recorded == body
    then []
    else diffs_of (json.parse recorded) (json.parse body)

abbrev pub is_nothing : Substitutions → Bool
is_nothing [] = true
is_nothing (s ∷ subs) = false

module _ (wide : ℕ → Bool) where
  abbrev pub is_structural : Text → Text → MockEntry → Bool
  is_structural method uri m =
      m.request.method == method && (m.request.uri == uri || paths_match wide m.request.uri uri)

  -- `mocks.iter().rev().find(…)`.
  unfoldable pub closest : List MockEntry → Text → Text → Option MockEntry
  unfolding paths_match
  closest mocks method uri = find (is_structural method uri) (reverse mocks)

  -- The loop over the segments; `none` where a static segment changed.
  unfoldable pub add_path_diffs :
      Text → List Text → List Text → Substitutions → Option Substitutions
  unfolding is_dynamic_segment contains
  add_path_diffs response [] inc_segs subs = some subs
  add_path_diffs response (r ∷ rec_segs) [] subs = some subs
  add_path_diffs response (r ∷ rec_segs) (i ∷ inc_segs) subs = elim (r == i) [
    | true ↦ add_path_diffs response rec_segs inc_segs subs
    | false ↦ elim (is_dynamic_segment wide r || is_dynamic_segment wide i) [
      | false ↦ none
      | true ↦ add_path_diffs response rec_segs inc_segs (add_traceable response r i subs)
    ]
  ]

  unfoldable pub path_diffs : Text → Text → Text → Option Substitutions
  unfolding add_path_diffs split
  path_diffs response rec_path inc_path =
      let rec_segs = split b'/' rec_path in
      let inc_segs = split b'/' inc_path in
      if nat_beq (length rec_segs) (length inc_segs)
      then add_path_diffs response rec_segs inc_segs []
      else none

  -- Steps 2 and 3: every traceable difference of path, query and body.
  unfoldable pub substitutions : JsonSerde → MockEntry → Text → Text → Option Substitutions
  unfolding path_diffs add_query_diffs add_body_diffs body_diffs parse_query split_uri
  substitutions json recorded uri body =
      let response = recorded.response.body in
      let old = split_uri recorded.request.uri in
      let now = split_uri uri in
      elim (path_diffs response old.0 now.0) [
        | none ↦ none
        | some subs ↦ some (
            add_body_diffs response (body_diffs json recorded.request.body body)
              (add_query_diffs response (parse_query old.1) (parse_query now.1) subs))
      ]

  unfoldable pub swapped : JsonSerde → MockEntry → Text → Text → Substitutions → Option MockEntry
  unfolding apply_substitutions_to_json
  swapped json recorded uri body subs =
      if is_nothing subs && not (recorded.request.uri == uri && recorded.request.body == body)
      then none
      else some (record recorded {
        response = record recorded.response {
          body = apply_substitutions_to_json json recorded.response.body subs;
        };
      })

  unfoldable pub find_smart_swap :
      JsonSerde → List MockEntry → Text → Text → Text → Option MockEntry
  unfolding closest substitutions swapped
  find_smart_swap json mocks method uri body = elim (closest mocks method uri) [
    | none ↦ none
    | some recorded ↦ elim (substitutions json recorded uri body) [
      | none ↦ none
      | some subs ↦ swapped json recorded uri body subs
    ]
  ]
