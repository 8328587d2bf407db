-- ===== src/Examples/Uris.antt =====
-- The URI theorems at concrete paths and queries.
use gostly_ai_proxy.Base.{
  ℕ, ◌≡◌, refl, ap, ◌↔◌, ◌≢◌, Bool, true, false, [], ◌∷◌, ◌++◌, arith, Text, codes, text_eq,
  list_beq, split, has,
}
use gostly_ai_proxy.Uri.{paths_match, normalize_uri, key_value, is_dynamic_segment}
use gostly_ai_proxy.Uri.Shape.{Shape, path_segments, paths_match_iff}
use gostly_ai_proxy.Uri.Normalize.{exchange, normalize_uri_idem, normalize_uri-Reordered}

abbrev no_wide : ℕ → Bool
no_wide c = false

abbrev recorded : Text
recorded = codes "/orders/17/items"

abbrev incoming : Text
incoming = codes "/orders/42/items?page=2"

match_test : paths_match no_wide recorded incoming ≡ true
unfolding paths_match list_beq is_dynamic_segment
match_test = refl

static_test : paths_match no_wide recorded (codes "/orders/new/lines") ≡ false
unfolding paths_match list_beq is_dynamic_segment
static_test = refl

normalize_test : normalize_uri (codes "/x?b=2&a=1&flag") ≡ codes "/x?a=1&b=2&flag="
unfolding normalize_uri
normalize_test = refl

paths_match_iff_example :
    (paths_match no_wide recorded incoming ≡ true)
    ↔ Shape no_wide (path_segments no_wide recorded) (path_segments no_wide incoming)
paths_match_iff_example = paths_match_iff no_wide recorded incoming

normalize_uri_idem_example :
    normalize_uri (normalize_uri (codes "/x?b=2&a=1&flag"))
    ≡ normalize_uri (codes "/x?b=2&a=1&flag")
normalize_uri_idem_example = normalize_uri_idem (codes "/x?b=2&a=1&flag")

abbrev first : Text → ℕ
first [] = 0
first (c ∷ cs) = c

key_ne : codes "b" ≢ codes "a"
key_ne e = omega (arith, ap first e)

normalize_uri-Reordered_example :
    normalize_uri (codes "/x" ++ b'?' ∷ codes "b=2&a=1")
    ≡ normalize_uri (codes "/x" ++ b'?' ∷ codes "a=1&b=2")
unfolding has key_value split
normalize_uri-Reordered_example =
    normalize_uri-Reordered (codes "/x") (codes "b=2&a=1") (codes "a=1&b=2") refl (exchange key_ne)
