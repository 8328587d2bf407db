-- ===== src/Paths/Collection.antt =====
-- How the paths of one resource fit together: where it is created, where it is read and where an
-- action is taken on it.
use gostly_ai_proxy.Base.{
  ◌≡◌, refl, ap, sym, ◌∙◌, Bool, true, false, ◌&&◌, Option, none, some, List, [], ◌∷◌, ◌++◌, arith,
  Text, text_eq, nat_eq, nat_beq, push_head, if◌then◌else◌, retain, split, has, has-append,
  split_free, split_cons, Bool-cases, inl, inr, any, is_ascii_digit,
}
use mathlib.Core.List.{reverse, reverse-append}
use mathlib.Core.Option.{none-ne-some, some-injective}
use gostly_ai_proxy.Uri.{before}
use gostly_ai_proxy.Paths.{
  is_segment, segments, non_id_segments, is_in, is_version, action_verbs, last_two, last_three,
  last_collection, parse_collection_and_id, parse_collection_id_action, path_collection_segment,
}

-- A path with one more segment.
abbrev pub under : Text → Text → Text
under path seg = path ++ b'/' ∷ seg

split-append : (p s : Text) → split b'/' (p ++ b'/' ∷ s) ≡ split b'/' p ++ split b'/' s
unfolding split
split-append [] s = refl
split-append (x ∷ p) s = elim (Bool-cases (nat_beq x b'/')) [
  | inl slash ↦ rw slash (ap (λ (ps : List Text). [] ∷ ps) (split-append p s))
  | inr other ↦
      let (q, qs, e) = split_cons b'/' p in
      rw other (ap (push_head x) (split-append p s) ∙ rw e refl)
]

retain-append :
    (p : Text → Bool) (xs ys : List Text) → retain p (xs ++ ys) ≡ retain p xs ++ retain p ys
retain-append p [] ys = refl
retain-append p (x ∷ xs) ys = elim (Bool-cases (p x)) [
  | inl kept ↦ rw kept (ap (λ (zs : List Text). x ∷ zs) (retain-append p xs ys))
  | inr gone ↦ rw gone (retain-append p xs ys)
]

before_free : (s : Text) → has b'?' s ≡ false → before b'?' s ≡ s
unfolding before
before_free s free = rw (split_free b'?' s free, before) refl

segments-under :
    (path seg : Text)
    → has b'?' path ≡ false
    → has b'?' seg ≡ false
    → has b'/' seg ≡ false
    → is_segment seg ≡ true
    → segments (under path seg) ≡ segments path ++ seg ∷ []
unfolding segments
segments-under path seg plain plain_seg whole nonempty =
    let all_plain : has b'?' (path ++ b'/' ∷ seg) ≡ false =
      has-append b'?' path (b'/' ∷ seg) ∙ unfold has in ground (arith, plain, plain_seg) in
    ap (λ (t : Text). retain is_segment (split b'/' t)) (before_free (path ++ b'/' ∷ seg) all_plain)
    ∙ ap (retain is_segment) (split-append path seg)
    ∙ retain-append is_segment (split b'/' path) (split b'/' seg)
    ∙ ap (λ (ps : List Text). retain is_segment (split b'/' path) ++ retain is_segment ps)
        (split_free b'/' seg whole)
    ∙ ap (λ (ps : List Text). retain is_segment (split b'/' path) ++ ps) (rw nonempty refl)
    ∙ ap (λ (t : Text). retain is_segment (split b'/' t) ++ seg ∷ []) (sym (before_free path plain))

module _ {ℓ} {A : Type ℓ} where
  -- A value behind two tests.
  abbrev gated : Bool → Bool → A → Option A
  gated b b' x = if b then none else if b' then none else some x

  gated_open : (b b' : Bool) (x : A) → b ≡ false → b' ≡ false → gated b b' x ≡ some x
  gated_open b b' x h h' = rw h (rw h' refl)

  gated_value : (b b' : Bool) (x y : A) → gated b b' x ≡ some y → x ≡ y
  gated_value true b' x y h = absurd (none-ne-some y h)
  gated_value false true x y h = absurd (none-ne-some y h)
  gated_value false false x y h = some-injective x y h

last_two-collection :
    (rs : List Text) (c id : Text)
    → last_collection rs ≡ some c
    → is_in non_id_segments id ≡ false
    → is_version id ≡ false
    → last_two (id ∷ rs) ≡ some (c, id)
last_two-collection [] c id h plain unversioned = absurd (none-ne-some c h)
last_two-collection (r ∷ rs) c id h plain unversioned =
    gated_open (is_in non_id_segments id) (is_version id) (r, id) plain unversioned
    ∙ ap (λ (k : Text). some (k, id))
        (gated_value (has b'_' r && any is_ascii_digit r) (is_in action_verbs r) r c h)

-- Where a path without a query ends in a collection, the path with an id added is parsed to that
-- collection and that id, for any id that is one segment and not one of the reserved words or
-- versions.
pub parse_collection_and_id-under :
    (path c id : Text)
    → path_collection_segment path ≡ some c
    → has b'?' path ≡ false
    → has b'?' id ≡ false
    → has b'/' id ≡ false
    → is_segment id ≡ true
    → is_in non_id_segments id ≡ false
    → is_version id ≡ false
    → parse_collection_and_id (under path id) ≡ some (c, id)
unfolding parse_collection_and_id path_collection_segment
parse_collection_and_id-under path c id h plain plain_id whole nonempty unreserved unversioned =
    ap (λ (ss : List Text). last_two (reverse ss))
      (segments-under path id plain plain_id whole nonempty)
    ∙ ap last_two (reverse-append (segments path) (id ∷ []))
    ∙ last_two-collection (reverse (segments path)) c id h unreserved unversioned

last_three-two :
    (rs : List Text) (c id action : Text)
    → last_two rs ≡ some (c, id)
    → last_three (action ∷ rs) ≡ some (c, id, action)
last_three-two [] c id action h = absurd (none-ne-some (c, id) h)
last_three-two (r ∷ []) c id action h = absurd (none-ne-some (c, id) h)
last_three-two (i ∷ r ∷ rs) c id action h =
    let same = gated_value (is_in non_id_segments i) (is_version i) (r, i) (c, id) h in
    ap (λ (p : Text × Text). some (p.0, p.1, action)) same

-- Where a path without a query is parsed to a collection and an id, the path with an action of one
-- segment added is parsed to the same collection and id and that action.
pub parse_collection_id_action-under :
    (path c id action : Text)
    → parse_collection_and_id path ≡ some (c, id)
    → has b'?' path ≡ false
    → has b'?' action ≡ false
    → has b'/' action ≡ false
    → is_segment action ≡ true
    → parse_collection_id_action (under path action) ≡ some (c, id, action)
unfolding parse_collection_and_id parse_collection_id_action
parse_collection_id_action-under path c id action h plain plain_action whole nonempty =
    ap (λ (ss : List Text). last_three (reverse ss))
      (segments-under path action plain plain_action whole nonempty)
    ∙ ap last_three (reverse-append (segments path) (action ∷ []))
    ∙ last_three-two (reverse (segments path)) c id action h
