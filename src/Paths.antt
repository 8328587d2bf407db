-- ===== src/Paths.antt =====
-- The path helpers of src/main.rs for resource-shaped routes, and the choice of an upstream.
pub mod Collection
use gostly_ai_proxy.Base.{
  ℕ, Bool, true, false, ◌&&◌, ◌||◌, Option, none, some, List, [], ◌∷◌, Text, text_eq, nat_eq, ◌==◌,
  codes, leb, if◌then◌else◌, any, all, retain, split, has, starts_with, byte_len, is_ascii_digit,
}
use mathlib.Core.List.{reverse}
use gostly_ai_proxy.Uri.{before}
use gostly_ai_proxy.Types.{Mode}

abbrev pub is_segment : Text → Bool
is_segment [] = false
is_segment (c ∷ cs) = true

-- `path.split('?').next()`, split at `/`, without the empty segments.
unfoldable pub segments : Text → List Text
unfolding before split
segments path = retain is_segment (split b'/' (before b'?' path))

abbrev pub non_id_segments : List Text
non_id_segments =
    codes "search" ∷ codes "batch" ∷ codes "_count" ∷ codes "bulk" ∷ codes "query" ∷ []

abbrev pub is_in : List Text → Text → Bool
is_in names s = any (λ n. n == s) names

-- `v1`, `v12`, and `v` alone.
abbrev pub is_version : Text → Bool
is_version [] = false
is_version (c ∷ cs) = c == b'v' && leb (byte_len (c ∷ cs)) 3 && all is_ascii_digit cs

-- The last two segments, the last one first.
abbrev pub last_two : List Text → Option (Text × Text)
last_two (id_seg ∷ collection_seg ∷ _) =
    if is_in non_id_segments id_seg
    then none
    else if is_version id_seg
    then none
    else some (collection_seg, id_seg)
last_two _ = none

unfoldable pub parse_collection_and_id : Text → Option (Text × Text)
unfolding segments byte_len
parse_collection_and_id path = last_two (reverse (segments path))

abbrev pub last_three : List Text → Option (Text × Text × Text)
last_three (action ∷ id ∷ collection ∷ _) = some (collection, id, action)
last_three _ = none

unfoldable pub parse_collection_id_action : Text → Option (Text × Text × Text)
unfolding segments
parse_collection_id_action path = last_three (reverse (segments path))

abbrev pub action_verbs : List Text
action_verbs =
    codes "capture"
    ∷ codes "refund"
    ∷ codes "void"
    ∷ codes "cancel"
    ∷ codes "activate"
    ∷ codes "pause"
    ∷ codes "resume"
    ∷ codes "ship"
    ∷ codes "deliver"
    ∷ codes "return"
    ∷ codes "pay"
    ∷ codes "finalize"
    ∷ codes "suspend"
    ∷ codes "reactivate"
    ∷ codes "delete"
    ∷ []

-- A segment with an underscore and a digit looks like an id.
abbrev pub last_collection : List Text → Option Text
last_collection [] = none
last_collection (last ∷ _) =
    if has b'_' last && any is_ascii_digit last
    then none
    else if is_in action_verbs last
    then none
    else some last

unfoldable pub path_collection_segment : Text → Option Text
unfolding segments has
path_collection_segment path = last_collection (reverse (segments path))

-- A route, with whatever chaos configuration it carries.
pub record UpstreamRoute (C : Type 0) : Type 0 where
  pub service_id : Text
  pub upstream_url : Text
  pub routing_type : Text
  pub routing_value : Text
  pub mode : Option Mode
  pub chaos_config : Option C
  pub redact_headers : List Text

module _ {C : Type 0} where
  unfoldable pub route_matches : UpstreamRoute C → Text → Text → Bool
  unfolding before starts_with
  route_matches up host path =
      if up.routing_type == codes "host"
      then before b':' host == up.routing_value || host == up.routing_value
      else if up.routing_type == codes "path"
      then starts_with path up.routing_value
      else false

  unfoldable pub resolve_upstream :
      List (UpstreamRoute C)
      → Text
      → Text
      → Text
      → Text × Option Text × Option Mode × Option C × List Text
  unfolding route_matches
  resolve_upstream [] host path default_url = (default_url, none, none, none, [])
  resolve_upstream (up ∷ upstreams) host path default_url =
      let rest = resolve_upstream upstreams host path default_url in
      if route_matches up host path
      then (up.upstream_url, some up.service_id, up.mode, up.chaos_config, up.redact_headers)
      else rest
