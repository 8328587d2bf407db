-- ===== src/Uri.antt =====
-- URI helpers of src/matcher.rs (`normalize_uri`, `paths_match`, `is_dynamic_segment`, `split_uri`).
-- `char::is_alphanumeric` is Unicode's table: it is a parameter, of which only what it says of ASCII
-- is known, and that is written out.
pub mod Shape
pub mod Normalize
use gostly_ai_proxy.Base.{
  ℕ, Bool, true, false, not, ◌&&◌, ◌||◌, Option, none, some, List, [], ◌∷◌, ◌++◌, map, Text, codes,
  ltb, nat_beq, if◌then◌else◌, ◌==◌, text_eq, length, all, any, split, join, split_once,
  is_ascii_digit, is_ascii_alphabetic, is_ascii_alphanumeric, is_ascii_hexdigit,
}

-- `s.split(c).next().unwrap_or(s)`: the text before the first `c`.
unfoldable pub before : ℕ → Text → Text
unfolding split
before c s = elim (split c s) [ [] ↦ s | p ∷ _ ↦ p ]

-- `it = kv.splitn(2, '=')`, then `(it.next()?, it.next().unwrap_or(""))`.
unfoldable pub key_value : Text → Text × Text
unfolding split_once
key_value kv = elim (split_once b'=' kv) [ none ↦ (kv, []) | some (k, v) ↦ (k, v) ]

-- `k <= v` of `str`, which compares code points from the left.
unfoldable pub text_leb : Text → Text → Bool
text_leb [] t = true
text_leb (x ∷ s) [] = false
text_leb (x ∷ s) (y ∷ t) = if ltb x y then true else nat_beq x y && text_leb s t

-- `params.sort_by_key(|(k, _)| *k)`, a stable sort.
unfoldable pub insert_param : Text × Text → List (Text × Text) → List (Text × Text)
unfolding text_leb
insert_param p [] = p ∷ []
insert_param p (q ∷ qs) = if text_leb p.0 q.0 then p ∷ q ∷ qs else q ∷ insert_param p qs

unfoldable pub sort_params : List (Text × Text) → List (Text × Text)
unfolding insert_param
sort_params [] = []
sort_params (p ∷ ps) = insert_param p (sort_params ps)

-- `format!("{}={}", k, v)`.
unfoldable pub format_param : Text × Text → Text
format_param (k, v) = k ++ b'=' ∷ v

unfoldable pub normalize_query : Text → Text
unfolding split key_value sort_params format_param join
normalize_query query =
    join b'&' (map format_param (sort_params (map key_value (split b'&' query))))

unfoldable pub normalize_uri : Text → Text
unfolding split_once normalize_query
normalize_uri uri = elim (split_once b'?' uri) [
  | none ↦ uri
  | some (path, query) ↦ path ++ b'?' ∷ normalize_query query
]

unfoldable pub split_uri : Text → Text × Text
unfolding split_once
split_uri uri = elim (split_once b'?' uri) [ none ↦ (uri, []) | some (a, b) ↦ (a, b) ]

-- `c.is_alphanumeric()`, with the table beyond ASCII as a parameter.
unfoldable pub is_alphanumeric : (ℕ → Bool) → ℕ → Bool
is_alphanumeric wide c = if ltb c 128 then is_ascii_alphanumeric c else wide c

module _ (wide : ℕ → Bool) where
  unfoldable pub is_dynamic_segment : Text → Bool
  unfolding split is_alphanumeric
  is_dynamic_segment [] = false
  is_dynamic_segment (x ∷ xs) =
      let s : Text = x ∷ xs in
      let parts = split b'-' s in
      if all is_ascii_digit s
      then true
      else if nat_beq (length parts) 5 && all (all is_ascii_hexdigit) parts
      then true
      else any is_ascii_digit s
        && any is_ascii_alphabetic s
        && all (λ c. is_alphanumeric wide c || nat_beq c b'-' || nat_beq c b'_') s

  unfoldable pub segments_match : List Text → List Text → Bool
  segments_match [] _ = true
  segments_match (a ∷ as') [] = true
  segments_match (a ∷ as') (b ∷ bs) =
      (a == b || is_dynamic_segment a || is_dynamic_segment b) && segments_match as' bs

  -- The `zip` stops at the shorter list; the lengths are compared first.
  unfoldable pub paths_match : Text → Text → Bool
  unfolding split before segments_match
  paths_match recorded incoming =
      let rp = split b'/' (before b'?' recorded) in
      let ip = split b'/' (before b'?' incoming) in
      nat_beq (length rp) (length ip) && segments_match rp ip
