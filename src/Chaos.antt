-- ===== src/Chaos.antt =====
-- The parts of src/chaos.rs that choose a rule and scrub a path: the glob matcher, the lookup of an
-- endpoint's rule, and what the event log may hold of a path.
pub mod Glob
pub mod Scrub
pub mod Config
pub mod Draw
use gostly_ai_proxy.Base.{
  ℕ, suc, Bool, true, false, not, ◌&&◌, ◌||◌, Option, none, some, List, [], ◌∷◌, ◌++◌, map, Text,
  text_eq, nat_eq, ◌==◌, codes, leb, nat_beq, if◌then◌else◌, all, find, length, retain, split, join,
  starts_with, utf8, is_ascii_digit, is_ascii_hexdigit,
}
use mathlib.Core.List.{reverse}
use gostly_ai_proxy.Uri.{before}

-- `trim_matches('/')`.
unfoldable pub trim_start_slash : Text → Text
trim_start_slash [] = []
trim_start_slash (c ∷ s) = let rest = trim_start_slash s in if nat_beq c b'/' then rest else c ∷ s

unfoldable pub trim_slashes : Text → Text
unfolding trim_start_slash
trim_slashes s = reverse (trim_start_slash (reverse (trim_start_slash s)))

abbrev pub star : Text
star = codes "*"

abbrev pub star_star : Text
star_star = codes "**"

abbrev pub is_empty : List Text → Bool
is_empty [] = true
is_empty (p ∷ ps) = false

-- The loop over the splits of the path, from the whole of it to nothing.
abbrev pub any_suffix : (List Text → Bool) → List Text → Bool
any_suffix f [] = f []
any_suffix f (s ∷ ss) = f (s ∷ ss) || any_suffix f ss

unfoldable pub glob_match_segs : List Text → List Text → Bool
glob_match_segs [] [] = true
glob_match_segs [] (s ∷ ss) = false
glob_match_segs (p ∷ ps) [] = p == star_star && is_empty ps
glob_match_segs (p ∷ ps) (s ∷ ss) =
    let after = any_suffix (glob_match_segs ps) (s ∷ ss) in
    let next = glob_match_segs ps ss in
    if p == star_star
    then (if is_empty ps then true else after)
    else if p == star || p == s
    then next
    else false

unfoldable pub glob_match : Text → Text → Bool
unfolding trim_slashes split glob_match_segs
glob_match pattern path =
    glob_match_segs (split b'/' (trim_slashes pattern)) (split b'/' (trim_slashes path))

-- A rule, with whatever configuration it carries.
pub record EndpointRule (C : Type 0) : Type 0 where
  pub uri_pattern : Text
  pub config : C

module _ {C : Type 0} where
  abbrev config_of : Option (EndpointRule C) → Option C
  config_of none = none
  config_of (some r) = some r.config

  unfoldable pub find_endpoint_rule : List (EndpointRule C) → Text → Option C
  unfolding glob_match before
  find_endpoint_rule rules path_query =
      let path = before b'?' path_query in
      config_of (find (λ r. glob_match r.uri_pattern path) rules)

-- The loop of `is_uuid` over the bytes, from the index of the first.
unfoldable pub uuid_bytes : ℕ → List ℕ → Bool
uuid_bytes i [] = true
uuid_bytes i (b ∷ bs) =
    let expect_dash = i == 8 || i == 13 || i == 18 || i == 23 in
    let is_dash = b == b'-' in
    (if expect_dash then is_dash else not is_dash && is_ascii_hexdigit b) && uuid_bytes (suc i) bs

unfoldable pub is_uuid : Text → Bool
unfolding uuid_bytes utf8
is_uuid s = length (utf8 s) == 36 && uuid_bytes 0 (utf8 s)

unfoldable pub is_long_numeric : Text → Bool
unfolding utf8
is_long_numeric s = leb 5 (length (utf8 s)) && all is_ascii_digit (utf8 s)

abbrev pub id_placeholder : Text
id_placeholder = codes "{id}"

-- What is pushed for one segment.
unfoldable pub scrub_segment : Text → Text
unfolding is_uuid is_long_numeric
scrub_segment seg = if is_uuid seg || is_long_numeric seg then id_placeholder else seg

-- The loop over the segments, with `wrote_segment`.
unfoldable pub scrub_segments : Bool → List Text → Text
unfolding scrub_segment
scrub_segments wrote_segment [] = []
scrub_segments wrote_segment ([] ∷ segs) = scrub_segments wrote_segment segs
scrub_segments wrote_segment ((c ∷ cs) ∷ segs) =
    (if wrote_segment then b'/' ∷ [] else []) ++ scrub_segment (c ∷ cs) ++ scrub_segments true segs

abbrev pub or_root : Text → Text
or_root [] = b'/' ∷ []
or_root (c ∷ cs) = c ∷ cs

unfoldable pub scrub_path : Text → Text
unfolding before split starts_with scrub_segments
scrub_path path_query =
    let path = before b'?' path_query in
    or_root (
      (if starts_with path (b'/' ∷ []) then b'/' ∷ [] else [])
      ++ scrub_segments false (split b'/' path))
