-- ===== src/Examples/Swaps.antt =====
-- The theorems of smart swap at one recorded order.
use gostly_ai_proxy.Base.HashMap.{insert}
use gostly_ai_proxy.Base.{
  ℕ, ◌≡◌, refl, Bool, true, false, none, some, [], ◌∷◌, codes, text_eq, list_beq, ◌⊎◌,
}
use gostly_ai_proxy.Uri.{paths_match}
use gostly_ai_proxy.Types.{MockEntry, global_tenant}
use gostly_ai_proxy.Swap.{
  JsonSerde, Substitutions, substitutions, find_smart_swap, replace_at_word_boundary,
}
use gostly_ai_proxy.Swap.Evidence.{IsTraceable, substitutions-IsTraceable, find_smart_swap-tenant}

abbrev no_wide : ℕ → Bool
no_wide c = false

-- Bodies that are no JSON.
abbrev no_json : JsonSerde
no_json = record { parse = λ t. none; print = λ v. none }

abbrev recorded : MockEntry
recorded = record {
  id = codes "e1";
  timestamp = codes "now";
  request = record { method = codes "GET"; uri = codes "/orders/17"; body = [] };
  response = record { status = 200; headers = []; body = codes "order 17 of 170"; latency_ms = 1 };
  service_id = none;
  tenant = global_tenant;
  workload_class = codes "human";
}

abbrev subs : Substitutions
subs = (codes "17", codes "42") ∷ []

collected : substitutions no_wide no_json recorded (codes "/orders/42") [] ≡ some subs
unfolding substitutions list_beq insert
collected = refl

-- The whole number is replaced, the longer one is not.
replace_test :
    replace_at_word_boundary (codes "order 17 of 170") (codes "17") (codes "42")
    ≡ codes "order 42 of 170"
unfolding replace_at_word_boundary list_beq
replace_test = refl

-- A character outside ASCII comes back as the characters of its bytes.
replace_bytes_test :
    replace_at_word_boundary (codes "17 é") (codes "17") (codes "42") ≡ codes "42 Ã©"
unfolding replace_at_word_boundary list_beq
replace_bytes_test = refl

substitutions-IsTraceable_example : IsTraceable (codes "order 17 of 170") subs
substitutions-IsTraceable_example =
    substitutions-IsTraceable no_wide no_json recorded (codes "/orders/42") [] subs collected

abbrev swapped_entry : MockEntry
swapped_entry = record recorded {
  response = record { status = 200; headers = []; body = codes "order 42 of 170"; latency_ms = 1 };
}

found :
    find_smart_swap no_wide no_json (recorded ∷ []) (codes "GET") (codes "/orders/42") []
    ≡ some swapped_entry
unfolding find_smart_swap list_beq insert
found = refl

find_smart_swap-tenant_example :
    (swapped_entry.tenant ≡ global_tenant)
    × (swapped_entry.request.method ≡ codes "GET")
    × ((swapped_entry.request.uri ≡ codes "/orders/42")
        ⊎ (paths_match no_wide swapped_entry.request.uri (codes "/orders/42") ≡ true))
find_smart_swap-tenant_example =
    find_smart_swap-tenant no_wide no_json (recorded ∷ []) global_tenant (codes "GET")
      (codes "/orders/42") [] swapped_entry (refl, tt) found
