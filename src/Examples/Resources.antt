-- ===== src/Examples/Resources.antt =====
-- The theorems of the resource store at a captured charge.
use gostly_ai_proxy.ResourceStore.Extract.Depth.{IdAt, IsCandidate, extract_id-IdAt}
use gostly_ai_proxy.Base.{
  ℕ, ◌≤◌, ◌≡◌, refl, ◌&&◌, none, some, codes, text_eq, pair_eq, ◌==◌, if◌then◌else◌, list_beq,
  pair_beq,
}
use gostly_ai_proxy.Base.HashMap
use gostly_ai_proxy.Json.{get_field, Json}
use gostly_ai_proxy.Json.Json.{string, object}
use gostly_ai_proxy.Json.Fields.{field, no_fields}
use gostly_ai_proxy.Statechart.{get, apply_in}
use gostly_ai_proxy.Statechart.Fixtures.{with_bundled_fixtures}
use gostly_ai_proxy.ResourceStore.{
  ResourceStore, ResourceKey, new, lookup, captured, capture_create, apply_transition,
}
use gostly_ai_proxy.ResourceStore.Extract.{extract_id}
use gostly_ai_proxy.ResourceStore.Lookup.{lookup-capture_create}

abbrev body : Json
body = object (
    field (codes "id") (string (codes "ch_1"))
      (field (codes "status") (string (codes "created")) no_fields))

abbrev empty_store : ResourceStore
empty_store = new (codes "data") (some with_bundled_fixtures)

found_id : extract_id body (codes "charges") none ≡ some (codes "ch_1")
unfolding extract_id get_field list_beq
found_id = refl

lookup-capture_create_example :
    lookup
      (capture_create empty_store 7 (codes "pay") (codes "charges") body none none 201).1
      (codes "pay")
      (codes "charges")
      (codes "ch_1")
    ≡ (if codes "pay" == codes "pay"
          && ◌==◌ {A = ResourceKey} (codes "charges", codes "ch_1") (codes "charges", codes "ch_1")
        then some (captured empty_store 7 (codes "charges") (codes "ch_1") body none 201)
        else lookup empty_store (codes "pay") (codes "charges") (codes "ch_1"))
lookup-capture_create_example =
    lookup-capture_create empty_store 7 (codes "pay") (codes "charges") body none none 201
      (codes "ch_1") (codes "pay") (codes "charges") (codes "ch_1") found_id

abbrev store : ResourceStore
store = (capture_create empty_store 7 (codes "pay") (codes "charges") body none none 201).1

advanced :
    (apply_transition store 8 (codes "pay") (codes "charges") (codes "ch_1") (codes "capture")).0
    ≡ some (codes "captured")
unfolding apply_transition capture_create extract_id get_field list_beq HashMap.get HashMap.insert
    pair_beq get with_bundled_fixtures apply_in
advanced = refl

abbrev nested : Json
nested = object (field (codes "data") body no_fields)

nested_id : extract_id nested (codes "charges") none ≡ some (codes "ch_1")
unfolding extract_id get_field list_beq
nested_id = refl

extract_id-IdAt_example :
    (n : ℕ) × IdAt (IsCandidate (codes "charges") none) nested n (codes "ch_1") × (n ≤ 3)
extract_id-IdAt_example = extract_id-IdAt nested (codes "charges") none (codes "ch_1") nested_id
