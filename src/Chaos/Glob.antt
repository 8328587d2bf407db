-- ===== src/Chaos/Glob.antt =====
-- What a glob means: `*` is one segment and `**` is any number of them.
use gostly_ai_proxy.Base.{
  ◌≡◌, refl, ◌↔◌, Bool, true, false, ◌&&◌, List, [], ◌∷◌, arith, Text, text_eq, ◌==◌, list_beq,
  eq_iff, eq_refl, Bool-cases, inl, inr, if◌then◌else◌,
}
use gostly_ai_proxy.Chaos.{star, star_star, is_empty, any_suffix, glob_match_segs}

pub data Glob : List Text → List Text → Type 0 where
  done : Glob [] []
  one : {s : Text} {ps ss : List Text} → Glob ps ss → Glob (star ∷ ps) (s ∷ ss)
  same : {s : Text} {ps ss : List Text} → Glob ps ss → Glob (s ∷ ps) (s ∷ ss)
  none_more : {ps ss : List Text} → Glob ps ss → Glob (star_star ∷ ps) ss
  one_more :
      {s : Text} {ps ss : List Text} → Glob (star_star ∷ ps) ss → Glob (star_star ∷ ps) (s ∷ ss)

-- No `**` stands right after another.
abbrev pub NoDouble : List Text → Type 0
NoDouble [] = Unit
NoDouble (p ∷ []) = Unit
NoDouble (p ∷ q ∷ ps) = ((p == star_star && q == star_star) ≡ false) × NoDouble (q ∷ ps)

any_suffix_whole : (f : List Text → Bool) (ss : List Text) → f ss ≡ true → any_suffix f ss ≡ true
any_suffix_whole f [] h = h
any_suffix_whole f (s ∷ ss) h = ground (arith, h)

any_suffix_later :
    (f : List Text → Bool) (s : Text) (ss : List Text)
    → any_suffix f ss ≡ true
    → any_suffix f (s ∷ ss) ≡ true
any_suffix_later f s ss h = ground (arith, h)

-- A suffix that matches, after the segments that `**` takes.
Glob-any_suffix :
    (ps ss : List Text)
    → ((ts : List Text) → glob_match_segs ps ts ≡ true → Glob ps ts)
    → any_suffix (glob_match_segs ps) ss ≡ true
    → Glob (star_star ∷ ps) ss
Glob-any_suffix ps [] sound h = none_more (sound [] h)
Glob-any_suffix ps (s ∷ ss) sound h = elim (Bool-cases (glob_match_segs ps (s ∷ ss))) [
  | inl here ↦ none_more (sound (s ∷ ss) here)
  | inr later ↦ one_more (Glob-any_suffix ps ss sound (rw later at h))
]

Glob-all : (ss : List Text) → Glob (star_star ∷ []) ss
Glob-all [] = none_more done
Glob-all (s ∷ ss) = one_more (Glob-all ss)

-- What a leading `**` leaves to be shown.
deep_tail :
    (p : Text) (ps : List Text) (s : Text) (ss : List Text)
    → (p == star_star) ≡ true
    → glob_match_segs (p ∷ ps) (s ∷ ss) ≡ true
    → (if is_empty ps then true else any_suffix (glob_match_segs ps) (s ∷ ss)) ≡ true
unfolding glob_match_segs
deep_tail p ps s ss deep h = rw deep at h

deep_sound :
    (ps ss : List Text)
    → ((ts : List Text) → glob_match_segs ps ts ≡ true → Glob ps ts)
    → (if is_empty ps then true else any_suffix (glob_match_segs ps) ss) ≡ true
    → Glob (star_star ∷ ps) ss
deep_sound [] ss sound h = Glob-all ss
deep_sound (q ∷ qs) ss sound h = Glob-any_suffix (q ∷ qs) ss sound h

Glob-sound : (ps ss : List Text) → glob_match_segs ps ss ≡ true → Glob ps ss
unfolding glob_match_segs
Glob-sound [] [] h = done
Glob-sound [] (s ∷ ss) h = cc
Glob-sound (p ∷ []) [] h = let e = (eq_iff p star_star).0 (ground arith) in rw e (none_more done)
Glob-sound (p ∷ q ∷ ps) [] h = absurd (ground (arith, h))
Glob-sound (p ∷ ps) (s ∷ ss) h = elim (Bool-cases (p == star_star)) [
  | inl deep ↦
      rw ((eq_iff p star_star).0 deep)
        (deep_sound ps (s ∷ ss) (λ ts. Glob-sound ps ts) (deep_tail p ps s ss deep h))
  | inr flat ↦ elim (Bool-cases (p == star)) [
    | inl any ↦ rw ((eq_iff p star).0 any) (one (Glob-sound ps ss (ground (arith, h))))
    | inr literal ↦
        rw ((eq_iff p s).0 (ground (arith, h))) (same (Glob-sound ps ss (ground (arith, h))))
  ]
]

star_star_step :
    (ps ss : List Text) (s : Text)
    → any_suffix (glob_match_segs ps) ss ≡ true
    → glob_match_segs (star_star ∷ ps) (s ∷ ss) ≡ true
unfolding glob_match_segs
star_star_step [] ss s h = rw (eq_refl star_star) refl
star_star_step (p ∷ ps) ss s h =
    rw (eq_refl star_star) (any_suffix_later (glob_match_segs (p ∷ ps)) s ss h)

NoDouble-tail : (p : Text) (ps : List Text) → NoDouble (p ∷ ps) → NoDouble ps
NoDouble-tail p [] n = tt
NoDouble-tail p (q ∷ ps) (n, ns) = ns

-- `**` with more pattern after it, at the end of the path.
exhausted :
    (ps : List Text)
    → NoDouble (star_star ∷ ps)
    → glob_match_segs ps [] ≡ true
    → glob_match_segs (star_star ∷ ps) [] ≡ true
unfolding glob_match_segs
exhausted [] n h = rw (eq_refl star_star) refl
exhausted (q ∷ ps) (n, ns) h = absurd (ground (arith, n, h, eq_refl star_star))

deep_intro :
    (ps : List Text) (s : Text) (ss : List Text)
    → any_suffix (glob_match_segs ps) (s ∷ ss) ≡ true
    → glob_match_segs (star_star ∷ ps) (s ∷ ss) ≡ true
unfolding glob_match_segs
deep_intro [] s ss h = rw (eq_refl star_star) refl
deep_intro (q ∷ ps) s ss h = rw (eq_refl star_star) h

deep_longer :
    (ps : List Text) (s : Text) (ss : List Text)
    → glob_match_segs (star_star ∷ ps) ss ≡ true
    → glob_match_segs (star_star ∷ ps) (s ∷ ss) ≡ true
unfolding glob_match_segs
deep_longer [] s ss h = rw (eq_refl star_star) refl
deep_longer (q ∷ ps) s [] h = absurd (ground (arith, h))
deep_longer (q ∷ ps) s (x ∷ ss) h = deep_intro (q ∷ ps) s (x ∷ ss) (
    any_suffix_later (glob_match_segs (q ∷ ps)) s (x ∷ ss)
      (deep_tail star_star (q ∷ ps) x ss (eq_refl star_star) h))

-- A segment of the pattern that is the path's own, `**` included.
literal :
    (s : Text) (ps ss : List Text)
    → glob_match_segs ps ss ≡ true
    → glob_match_segs (s ∷ ps) (s ∷ ss) ≡ true
unfolding glob_match_segs
literal s ps ss h = elim (Bool-cases (s == star_star)) [
  | inl deep ↦ rw ((eq_iff s star_star).0 deep) (
      deep_intro ps star_star ss (
        any_suffix_later (glob_match_segs ps) star_star ss
          (any_suffix_whole (glob_match_segs ps) ss h)))
  | inr flat ↦ ground (arith, flat, eq_refl s, h)
]

Glob-complete : (ps ss : List Text) → NoDouble ps → Glob ps ss → glob_match_segs ps ss ≡ true
unfolding glob_match_segs list_beq
Glob-complete _ _ n done = refl
Glob-complete _ _ n (one {s} {ps} {ss} r) = Glob-complete ps ss (NoDouble-tail star ps n) r
Glob-complete _ _ n (same {s} {ps} {ss} r) =
    literal s ps ss (Glob-complete ps ss (NoDouble-tail s ps n) r)
Glob-complete _ [] n (none_more {ps} r) =
    exhausted ps n (Glob-complete ps [] (NoDouble-tail star_star ps n) r)
Glob-complete _ (s ∷ ss) n (none_more {ps} r) = deep_intro ps s ss (
    any_suffix_whole (glob_match_segs ps) (s ∷ ss)
      (Glob-complete ps (s ∷ ss) (NoDouble-tail star_star ps n) r))
Glob-complete _ _ n (one_more {s} {ps} {ss} r) =
    deep_longer ps s ss (Glob-complete (star_star ∷ ps) ss n r)

-- The matcher decides the glob, on every path and every pattern that has no `**` right after another.
pub glob_match_segs_iff :
    (ps ss : List Text) → NoDouble ps → (glob_match_segs ps ss ≡ true) ↔ Glob ps ss
glob_match_segs_iff ps ss n = (Glob-sound ps ss, Glob-complete ps ss n)
