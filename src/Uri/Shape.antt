-- ===== src/Uri/Shape.antt =====
-- What `paths_match` decides: two paths of one shape, segment by segment.
use gostly_ai_proxy.Base.{
  ℕ, ◌≡◌, refl, ◌↔◌, Bool, true, List, [], ◌∷◌, arith, Text, ◌==◌, text_eq, eq_iff, length, split,
  Bool-cases, inl, inr, Bool-eq_of_iff,
}
use gostly_ai_proxy.Uri.{before, is_dynamic_segment, segments_match, paths_match}

module _ (wide : ℕ → Bool) where
  -- Segments that agree, or of which one is dynamic.
  pub data Shape : List Text → List Text → Type 0 where
    done : Shape [] []
    same : {a : Text} {ps qs : List Text} → Shape ps qs → Shape (a ∷ ps) (a ∷ qs)
    recorded_dynamic :
        {a b : Text} {ps qs : List Text}
        → is_dynamic_segment wide a ≡ true
        → Shape ps qs
        → Shape (a ∷ ps) (b ∷ qs)
    incoming_dynamic :
        {a b : Text} {ps qs : List Text}
        → is_dynamic_segment wide b ≡ true
        → Shape ps qs
        → Shape (a ∷ ps) (b ∷ qs)

  Shape-sound :
      (ps qs : List Text) → length ps ≡ length qs → segments_match wide ps qs ≡ true → Shape ps qs
  unfolding segments_match
  Shape-sound [] [] l h = done
  Shape-sound [] (q ∷ qs) l h = absurd (omega arith)
  Shape-sound (p ∷ ps) [] l h = absurd (omega arith)
  Shape-sound (p ∷ ps) (q ∷ qs) l h =
      let rest = Shape-sound ps qs (omega arith) (ground arith) in
      elim (Bool-cases (p == q)) [
        | inl e ↦ rw ((eq_iff p q).0 e) (same rest)
        | inr ne ↦ elim (Bool-cases (is_dynamic_segment wide p)) [
          | inl d ↦ recorded_dynamic d rest
          | inr nd ↦ incoming_dynamic (ground arith) rest
        ]
      ]

  Shape-length : {ps qs : List Text} → Shape ps qs → length ps ≡ length qs
  Shape-length done = refl
  Shape-length (same r) = omega (arith, Shape-length r)
  Shape-length (recorded_dynamic d r) = omega (arith, Shape-length r)
  Shape-length (incoming_dynamic d r) = omega (arith, Shape-length r)

  Shape-complete : {ps qs : List Text} → Shape ps qs → segments_match wide ps qs ≡ true
  unfolding segments_match
  Shape-complete done = refl
  Shape-complete (same {a} r) = ground (arith, eq_iff a a, Shape-complete r)
  Shape-complete (recorded_dynamic d r) = ground (arith, Shape-complete r)
  Shape-complete (incoming_dynamic d r) = ground (arith, Shape-complete r)

  pub Shape-sym : {ps qs : List Text} → Shape ps qs → Shape qs ps
  Shape-sym done = done
  Shape-sym (same r) = same (Shape-sym r)
  Shape-sym (recorded_dynamic d r) = incoming_dynamic d (Shape-sym r)
  Shape-sym (incoming_dynamic d r) = recorded_dynamic d (Shape-sym r)

  abbrev pub path_segments : Text → List Text
  path_segments uri = split b'/' (before b'?' uri)

  -- `paths_match` answers true exactly when the two paths, cut at the query and split at slashes,
  -- have as many segments and each pair of segments agrees or has a dynamic member.
  pub paths_match_iff :
      (recorded incoming : Text)
      → (paths_match wide recorded incoming ≡ true)
        ↔ Shape (path_segments recorded) (path_segments incoming)
  unfolding paths_match
  paths_match_iff r i = (
    λ h. Shape-sound (path_segments r) (path_segments i) (ground arith) (ground arith),
    λ d. ground (arith, Shape-length d, Shape-complete d),
  )

  -- The order of the two URIs does not matter.
  pub paths_match_comm :
      (recorded incoming : Text)
      → paths_match wide recorded incoming ≡ paths_match wide incoming recorded
  paths_match_comm r i =
      let (to, from) = paths_match_iff r i in
      let (to', from') = paths_match_iff i r in
      Bool-eq_of_iff _ _ (λ h. from' (Shape-sym (to h))) (λ h. from (Shape-sym (to' h)))
