-- ===== src/Examples/Overlaps.antt =====
-- The theorems of overlapping writers: a publication and a reload that starts during it.
use gostly_ai_proxy.Base.{
  ℕ, ◌≡◌, refl, some, List, [], ◌∷◌, map, ◌⊎◌, codes, list_beq, triple_beq, text_eq, triple_eq,
}
use gostly_ai_proxy.Base.HashMap
use gostly_ai_proxy.Library.{find_exact, publish}
use gostly_ai_proxy.Library.Overlap.{
  Edit, publication, file_reload, ready, apply, turn, turns, SomeWrote, find_exact-turns,
}
use gostly_ai_proxy.Examples.Entry.{serde}
use gostly_ai_proxy.Examples.Libraries.{order, one_entry, one_entry-IsOwned, pay_file, files}

abbrev edits : List Edit
edits = publication (codes "shop") order ∷ file_reload files pay_file ∷ []

-- The reload takes both of its steps before the publication stores.
abbrev schedule : List ℕ
schedule = 0 ∷ 1 ∷ 1 ∷ 0 ∷ []

order_found :
    find_exact
      (turns serde schedule one_entry (map ready edits)).0
      (codes "shop")
      (codes "GET")
      (codes "/orders")
      (codes "w1")
    ≡ some order
unfolding find_exact turns turn apply publish HashMap.insert HashMap.get list_beq triple_beq
order_found = refl

find_exact-turns_example :
    (find_exact one_entry (codes "shop") (codes "GET") (codes "/orders") (codes "w1") ≡ some order)
    ⊎ SomeWrote (codes "shop") (codes "GET", codes "/orders", codes "w1") order edits
find_exact-turns_example =
    find_exact-turns serde (codes "shop") (codes "GET") (codes "/orders") (codes "w1") one_entry
      edits schedule order one_entry-IsOwned order_found
