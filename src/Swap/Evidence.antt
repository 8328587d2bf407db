-- ===== src/Swap/Evidence.antt =====
-- What smart swap may do: it replaces only what the recorded response shows, in an entry of the
-- corpus with the method and the shape asked for.
use gostly_ai_proxy.Base.{
  ℕ, ◌≡◌, refl, ◌∙◌, Bool, true, not, ◌&&◌, ◌||◌, Option, none, some, List, [], ◌∷◌, Text, text_eq,
  ◌==◌, if◌then◌else◌, Bool-cases, Option-cases, ◌⊎◌, inl, inr, eq_iff, arith, All, All-append,
  find, find-some, split, contains, length, nat_beq,
}
use mathlib.Core.List.{reverse, reverse-cons}
use mathlib.Core.Option.{none-ne-some, some-injective}
use gostly_ai_proxy.Base.HashMap
use gostly_ai_proxy.Base.HashMap.{HashMap, All-insert}
use gostly_ai_proxy.Types.{MockEntry}
use gostly_ai_proxy.Uri.{split_uri, is_dynamic_segment, paths_match}
use gostly_ai_proxy.Library.Lookup.{OfTenant}
use gostly_ai_proxy.Swap.{
  JsonSerde, Substitutions, add_traceable, add_query_diffs, add_body_diffs, body_diffs, parse_query,
  is_structural, closest, add_path_diffs, path_diffs, substitutions, is_nothing, swapped,
  find_smart_swap,
}

-- The recorded value of every pair stands in the response.
abbrev pub IsTraceable : Text → Substitutions → Type 0
IsTraceable response = All (λ (b : Text × Text). contains response b.0 ≡ true)

add_traceable-IsTraceable :
    (response from to : Text) (subs : Substitutions)
    → IsTraceable response subs
    → IsTraceable response (add_traceable response from to subs)
add_traceable-IsTraceable response from to subs h = elim (Bool-cases (contains response from)) [
  | inl shown ↦ rw shown (All-insert (λ b. contains response b.0 ≡ true) subs from to shown h)
  | inr hidden ↦ rw hidden h
]

add_body_diffs-IsTraceable :
    (response : Text) (diffs : List (Text × Text)) (subs : Substitutions)
    → IsTraceable response subs
    → IsTraceable response (add_body_diffs response diffs subs)
unfolding add_body_diffs
add_body_diffs-IsTraceable response [] subs h = h
add_body_diffs-IsTraceable response ((from, to) ∷ diffs) subs h =
    add_body_diffs-IsTraceable response diffs (add_traceable response from to subs)
      (add_traceable-IsTraceable response from to subs h)

query_diff-IsTraceable :
    (response rec_val : Text) (o : Option Text) (subs : Substitutions)
    → IsTraceable response subs
    → IsTraceable response (elim o [
      | none ↦ subs
      | some inc_val ↦
          if rec_val == inc_val then subs else add_traceable response rec_val inc_val subs
    ])
query_diff-IsTraceable response rec_val none subs h = h
query_diff-IsTraceable response rec_val (some inc_val) subs h =
    elim (Bool-cases (rec_val == inc_val)) [
      | inl same ↦ rw same h
      | inr changed ↦ rw changed (add_traceable-IsTraceable response rec_val inc_val subs h)
    ]

add_query_diffs-IsTraceable :
    (response : Text) (rec_params inc_params : HashMap Text Text) (subs : Substitutions)
    → IsTraceable response subs
    → IsTraceable response (add_query_diffs response rec_params inc_params subs)
unfolding add_query_diffs
add_query_diffs-IsTraceable response [] inc_params subs h = h
add_query_diffs-IsTraceable response ((key, rec_val) ∷ rec_params) inc_params subs h =
    add_query_diffs-IsTraceable response rec_params inc_params _
      (query_diff-IsTraceable response rec_val (HashMap.get inc_params key) subs h)

-- An entry that the search in a list finds has what all of the list have.
find-All {ℓ κ} :
    {A : Type ℓ} (P : A → Type κ) (p : A → Bool) (xs : List A) {x : A}
    → All P xs
    → find p xs ≡ some x
    → P x
find-All P p [] h found = absurd (none-ne-some _ found)
find-All P p (y ∷ ys) {x} (q, h) found = elim (Bool-cases (p y)) [
  | inl here ↦ let e = some-injective y x (rw here at found) in rw (← e) q
  | inr there ↦ find-All P p ys h (rw there at found)
]

reverse-All {ℓ κ} : {A : Type ℓ} (P : A → Type κ) (xs : List A) → All P xs → All P (reverse xs)
reverse-All P [] h = tt
reverse-All P (x ∷ xs) (p, h) =
    rw (reverse-cons x xs) (All-append P (reverse xs) (x ∷ []) (reverse-All P xs h) (p, tt))

module _ (wide : ℕ → Bool) where
  add_path_diffs-IsTraceable :
      (response : Text) (rec_segs inc_segs : List Text) (subs subs' : Substitutions)
      → IsTraceable response subs
      → add_path_diffs wide response rec_segs inc_segs subs ≡ some subs'
      → IsTraceable response subs'
  unfolding add_path_diffs
  add_path_diffs-IsTraceable response [] inc_segs subs subs' h e =
      rw (← some-injective subs subs' e) h
  add_path_diffs-IsTraceable response (r ∷ rs) [] subs subs' h e =
      rw (← some-injective subs subs' e) h
  add_path_diffs-IsTraceable response (r ∷ rs) (i ∷ is) subs subs' h e =
      elim (Bool-cases (r == i)) [
        | inl same ↦
            add_path_diffs-IsTraceable response rs is subs subs' h (rw (same, add_path_diffs) at e)
        | inr changed ↦ elim (Bool-cases (is_dynamic_segment wide r || is_dynamic_segment wide i)) [
          | inl dynamic ↦
              add_path_diffs-IsTraceable response rs is (add_traceable response r i subs) subs'
                (add_traceable-IsTraceable response r i subs h)
                (rw (changed, dynamic, add_path_diffs) at e)
          | inr static ↦ absurd (none-ne-some subs' (rw (changed, static, add_path_diffs) at e))
        ]
      ]

  path_diffs-IsTraceable :
      (response rec_path inc_path : Text) (subs : Substitutions)
      → path_diffs wide response rec_path inc_path ≡ some subs
      → IsTraceable response subs
  unfolding path_diffs
  path_diffs-IsTraceable response rec_path inc_path subs e =
      elim (Bool-cases (nat_beq (length (split b'/' rec_path)) (length (split b'/' inc_path)))) [
        | inl same ↦
            add_path_diffs-IsTraceable response (split b'/' rec_path) (split b'/' inc_path) [] subs
              tt (rw (same, path_diffs) at e)
        | inr other ↦ absurd (none-ne-some subs (rw (other, path_diffs) at e))
      ]

  -- The evidence criterion: where the differences of a request from a recorded one are collected,
  -- each recorded value that they would replace, of the path, the query or the body, stands in the
  -- recorded response.
  pub substitutions-IsTraceable :
      (json : JsonSerde) (recorded : MockEntry) (uri body : Text) (subs : Substitutions)
      → substitutions wide json recorded uri body ≡ some subs
      → IsTraceable recorded.response.body subs
  unfolding substitutions
  substitutions-IsTraceable json recorded uri body subs e =
      let response = recorded.response.body in
      let old = split_uri recorded.request.uri in
      let now = split_uri uri in
      elim (Option-cases (path_diffs wide response old.0 now.0)) [
        | inl static ↦ absurd (none-ne-some subs (rw (static, substitutions) at e))
        | inr (first, diffs) ↦
            let same = some-injective _ subs (rw (diffs, substitutions) at e) in
            rw (← same) (
              add_body_diffs-IsTraceable response (body_diffs json recorded.request.body body) _ (
                add_query_diffs-IsTraceable response (parse_query old.1) (parse_query now.1) first
                  (path_diffs-IsTraceable response old.0 now.0 first diffs)))
      ]

  -- What a swap keeps of the recorded entry.
  abbrev Keeps : MockEntry → MockEntry → Type 0
  Keeps recorded m =
      (m.request ≡ recorded.request)
      × (m.tenant ≡ recorded.tenant)
      × (m.response.status ≡ recorded.response.status)

  swapped-Keeps :
      (json : JsonSerde) (recorded : MockEntry) (uri body : Text) (subs : Substitutions)
      (m : MockEntry)
      → swapped wide json recorded uri body subs ≡ some m
      → Keeps recorded m
  unfolding swapped
  swapped-Keeps json recorded uri body subs m e =
      elim (Bool-cases
        (is_nothing subs && not (recorded.request.uri == uri && recorded.request.body == body))) [
          | inl nothing ↦ absurd (none-ne-some m (rw (nothing, swapped) at e))
          | inr something ↦
              let same = some-injective _ m (rw (something, swapped) at e) in
              rw (← same) (refl, refl, refl)
        ]

  structural_cases :
      (method uri : Text) (m : MockEntry)
      → is_structural wide method uri m ≡ true
      → (m.request.method ≡ method)
        × ((m.request.uri ≡ uri) ⊎ (paths_match wide m.request.uri uri ≡ true))
  structural_cases method uri m h = elim (Bool-cases (m.request.uri == uri)) [
    | inl same ↦ (ground (arith, h, eq_iff m.request.method method), inl ((eq_iff _ uri).0 same))
    | inr other ↦
        (ground (arith, h, eq_iff m.request.method method), inr (ground (arith, h, other)))
  ]

  -- A swap among the entries of one tenant answers with an entry of that tenant, recorded for the
  -- method asked for and for a URI that is the one asked for or of its shape.
  pub find_smart_swap-tenant :
      (json : JsonSerde) (mocks : List MockEntry) (t method uri body : Text) (m : MockEntry)
      → OfTenant t mocks
      → find_smart_swap wide json mocks method uri body ≡ some m
      → (m.tenant ≡ t)
        × (m.request.method ≡ method)
        × ((m.request.uri ≡ uri) ⊎ (paths_match wide m.request.uri uri ≡ true))
  unfolding find_smart_swap closest
  find_smart_swap-tenant json mocks t method uri body m all_t e =
      elim (Option-cases (closest wide mocks method uri)) [
        | inl nothing ↦ absurd (none-ne-some m (rw (nothing, find_smart_swap) at e))
        | inr (recorded, found) ↦ elim (Option-cases (substitutions wide json recorded uri body)) [
          | inl static ↦ absurd (none-ne-some m (rw (found, static, find_smart_swap) at e))
          | inr (subs, diffs) ↦
              let (request, tenant, status) =
                swapped-Keeps json recorded uri body subs m
                  (rw (found, diffs, find_smart_swap) at e) in
              let its_tenant =
                find-All (λ (x : MockEntry). x.tenant ≡ t) (is_structural wide method uri)
                  (reverse mocks) (reverse-All (λ (x : MockEntry). x.tenant ≡ t) mocks all_t)
                  found in
              let (asked, shaped) =
                structural_cases method uri m
                  (rw request (find-some (is_structural wide method uri) (reverse mocks) found)) in
              (tenant ∙ its_tenant, asked, shaped)
        ]
      ]
