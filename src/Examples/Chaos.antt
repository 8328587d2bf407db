-- ===== src/Examples/Chaos.antt =====
-- The chaos theorems at concrete globs and paths.
use gostly_ai_proxy.Base.{
  ◌≡◌, refl, ◌↔◌, true, false, List, [], ◌∷◌, Text, codes, text_eq, list_beq, All, split,
}
use gostly_ai_proxy.Chaos.{star_star, glob_match, glob_match_segs, scrub_path}
use gostly_ai_proxy.Chaos.Glob.{Glob, NoDouble, glob_match_segs_iff}
use gostly_ai_proxy.Chaos.Scrub.{IsClear, scrub_path-IsClear}

abbrev glob : List Text
glob = codes "api" ∷ star_star ∷ codes "items" ∷ []

abbrev path : List Text
path = codes "api" ∷ codes "v2" ∷ codes "orders" ∷ codes "items" ∷ []

glob_match_test : glob_match (codes "/api/*/items") (codes "/api/orders/items") ≡ true
unfolding glob_match list_beq
glob_match_test = refl

-- Two `**` at the end do not match nothing, though one does.
double_star_test : glob_match (codes "/a/**/**") (codes "/a") ≡ false
unfolding glob_match list_beq
double_star_test = refl

glob_single : NoDouble glob
unfolding list_beq
glob_single = (refl, (refl, tt))

glob_match_segs_iff_example : (glob_match_segs glob path ≡ true) ↔ Glob glob path
glob_match_segs_iff_example = glob_match_segs_iff glob path glob_single

scrub_test : scrub_path (codes "/users/1234567/cards?token=x") ≡ codes "/users/{id}/cards"
unfolding scrub_path
scrub_test = refl

scrub_path-IsClear_example :
    All IsClear (split b'/' (scrub_path (codes "/users/1234567/cards?token=x")))
scrub_path-IsClear_example = scrub_path-IsClear (codes "/users/1234567/cards?token=x")
