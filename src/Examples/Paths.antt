-- ===== src/Examples/Paths.antt =====
-- The path theorems at the paths of a charge.
use gostly_ai_proxy.Base.{◌≡◌, refl, some, codes, has, text_eq, list_beq}
use gostly_ai_proxy.Paths.{parse_collection_and_id, path_collection_segment}
use gostly_ai_proxy.Paths.Collection.{under, parse_collection_and_id-under}

parse_collection_and_id-under_example :
    parse_collection_and_id (under (codes "/v1/charges") (codes "ch_1"))
    ≡ some (codes "charges", codes "ch_1")
unfolding path_collection_segment has list_beq
parse_collection_and_id-under_example =
    parse_collection_and_id-under (codes "/v1/charges") (codes "charges") (codes "ch_1") refl refl
      refl refl refl refl refl
