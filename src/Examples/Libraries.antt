-- ===== src/Examples/Libraries.antt =====
-- The theorems of the library at a library of two services, and at its files.
use gostly_ai_proxy.Base.{
  ℕ, ◌≡◌, ◌≢◌, refl, ap, none, some, [], ◌∷◌, ◌++◌, ◌&&◌, arith, Text, codes, text_eq, triple_eq,
  ◌==◌, if◌then◌else◌, All, IsClean, has, unlines, list_beq, triple_beq, true, Option,
}
use gostly_ai_proxy.Base.HashMap
use gostly_ai_proxy.Types.{MockEntry, global_tenant}
use gostly_ai_proxy.Library.{
  MockLibrary, empty_library, key_of, publish, find_exact, add_to_segment,
}
use gostly_ai_proxy.Library.Owned.{IsOwned, publish-IsOwned}
use gostly_ai_proxy.Library.Lookup.{find_exact-publish, find_exact-key}
use gostly_ai_proxy.Library.Reload.{
  Dir, segment_name, load_one_segment, rewritten, reload_one_file, load_all_service_mocks,
}
use gostly_ai_proxy.Library.Reload.Coherent.{reload_one_file-load_all_service_mocks}
use gostly_ai_proxy.Library.Reload.Durable.{
  segment_or_empty, load_one_segment-append, load_one_segment-rewritten,
}
use gostly_ai_proxy.Library.Reload.Isolated.{reload_one_file_elsewhere}
use gostly_ai_proxy.Examples.Entry.{serde, serde_laws}

abbrev entry : Text → Text → MockEntry
entry uri tenant = record {
  id = codes "e1";
  timestamp = codes "now";
  request = record { method = codes "GET"; uri = uri; body = [] };
  response = record { status = 200; headers = []; body = codes "ok"; latency_ms = 1 };
  service_id = some (codes "pay");
  tenant = tenant;
  workload_class = codes "human";
}

abbrev pub charge : MockEntry
charge = entry (codes "/charges") global_tenant

abbrev pub order : MockEntry
order = entry (codes "/orders") (codes "w1")

abbrev pub one_entry : MockLibrary
one_entry = publish (codes "pay") charge empty_library

pub one_entry-IsOwned : IsOwned one_entry
one_entry-IsOwned = publish-IsOwned (codes "pay") charge empty_library tt

abbrev pub two_entries : MockLibrary
two_entries = publish (codes "shop") order one_entry

find_exact-publish_example :
    find_exact two_entries (codes "shop") (codes "GET") (codes "/orders") (codes "w1") ≡ (
      if codes "shop" == codes "shop" && key_of order == (codes "GET", codes "/orders", codes "w1")
      then some order
      else find_exact one_entry (codes "shop") (codes "GET") (codes "/orders") (codes "w1"))
find_exact-publish_example =
    find_exact-publish (codes "shop") order one_entry (codes "shop") (codes "GET") (codes "/orders")
      (codes "w1") one_entry-IsOwned

one_found :
    find_exact one_entry (codes "pay") (codes "GET") (codes "/charges") global_tenant ≡ some charge
unfolding find_exact publish HashMap.insert HashMap.get list_beq triple_beq
one_found = refl

find_exact-key_example :
    (charge.request.method ≡ codes "GET")
    × (charge.request.uri ≡ codes "/charges")
    × (charge.tenant ≡ global_tenant)
find_exact-key_example =
    find_exact-key one_entry (codes "pay") (codes "GET") (codes "/charges") global_tenant charge
      one_entry-IsOwned one_found

abbrev pub pay_file : Text
pay_file = codes "mock_pay.jsonl"

pay_name : segment_name pay_file ≡ some (codes "pay")
unfolding segment_name
pay_name = refl

abbrev line_of : Option Text → Text
line_of none = []
line_of (some l) = l

abbrev charge_line : Text
charge_line = line_of (serde.print charge)

abbrev order_line : Text
order_line = line_of (serde.print order)

lines-IsClean : All IsClean (charge_line ∷ [])
unfolding has
lines-IsClean = ((refl, refl), tt)

load_one_segment-append_example :
    load_one_segment serde pay_file (unlines (charge_line ∷ []) ++ order_line ++ 10 ∷ [])
    ≡ some (
      codes "pay",
      add_to_segment
          (codes "pay")
          order
          (segment_or_empty (load_one_segment serde pay_file (unlines (charge_line ∷ [])))),
    )
load_one_segment-append_example =
    load_one_segment-append serde serde_laws pay_file (codes "pay") (charge_line ∷ []) order
      order_line pay_name lines-IsClean refl

-- The same entry twice and a broken line: what a compaction drops.
abbrev doubled : Text
doubled = unlines (charge_line ∷ codes "{" ∷ charge_line ∷ [])

load_one_segment-rewritten_example :
    load_one_segment serde pay_file (rewritten serde true pay_file doubled)
    ≡ load_one_segment serde pay_file doubled
load_one_segment-rewritten_example =
    load_one_segment-rewritten serde serde_laws true pay_file doubled

abbrev pub files : Dir
files = (pay_file, doubled) ∷ []

abbrev name_or_empty : Option Text → Text
name_or_empty none = []
name_or_empty (some t) = t

abbrev first : Text → ℕ
first [] = 0
first (c ∷ cs) = c

not_shop : segment_name pay_file ≢ some (codes "shop")
unfolding segment_name
not_shop e = omega (arith, ap (λ (o : Option Text). first (name_or_empty o)) e)

reload_one_file_elsewhere_example :
    find_exact
      (reload_one_file serde files pay_file two_entries)
      (codes "shop")
      (codes "GET")
      (codes "/orders")
      (codes "w1")
    ≡ find_exact two_entries (codes "shop") (codes "GET") (codes "/orders") (codes "w1")
reload_one_file_elsewhere_example =
    reload_one_file_elsewhere serde files pay_file two_entries (codes "shop") (codes "GET")
      (codes "/orders") (codes "w1")
      (publish-IsOwned (codes "shop") order one_entry one_entry-IsOwned) not_shop

abbrev both_files : Dir
both_files = (codes "mock_shop.jsonl", unlines (order_line ∷ [])) ∷ files

both_files-Unique : HashMap.Unique both_files
unfolding HashMap.get list_beq
both_files-Unique = (refl, (refl, tt))

two_entries-Unique : HashMap.Unique two_entries.segments
unfolding publish HashMap.insert HashMap.get list_beq
two_entries-Unique = (refl, (refl, tt))

reload_one_file-load_all_service_mocks_example :
    find_exact
      (reload_one_file serde both_files pay_file two_entries)
      (codes "pay")
      (codes "GET")
      (codes "/charges")
      global_tenant
    ≡ find_exact
        (load_all_service_mocks serde both_files)
        (codes "pay")
        (codes "GET")
        (codes "/charges")
        global_tenant
reload_one_file-load_all_service_mocks_example =
    reload_one_file-load_all_service_mocks serde both_files two_entries pay_file (codes "pay")
      (codes "GET") (codes "/charges") global_tenant both_files-Unique two_entries-Unique
      (publish-IsOwned (codes "shop") order one_entry one_entry-IsOwned) pay_name
