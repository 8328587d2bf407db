-- ===== src/Base/Split.antt =====
-- Splitting a text at a separator and joining the parts are inverse to one another.
use mathlib.Core.Path.{◌≡◌, refl, ap}
use mathlib.Core.Logic.{inl, inr}
use mathlib.Core.Bool.{false, ◌||◌}
use mathlib.Core.List.{List, [], ◌∷◌, ◌++◌}
use mathlib.Core.Option.{none, some}
use Prim.Native.Nat.{ℕ}
use native.Mathlib.Omega.{arith}
use gostly_ai_proxy.Base.Tests.{Bool-cases, nat_beq, nat_beq_iff}
use gostly_ai_proxy.Base.Lists.{All}
use gostly_ai_proxy.Base.Strings.{Text, has, push_head, split, join, split_once}

-- No part holds the separator.
abbrev pub Free : ℕ → List Text → Type 0
Free c = All (λ p. has c p ≡ false)

pub has-append : (c : ℕ) (s t : Text) → has c (s ++ t) ≡ (has c s || has c t)
unfolding has
has-append c [] t = refl
has-append c (x ∷ s) t = ground (arith, has-append c s t)

module _ (c : ℕ) where
  pub split_cons : (s : Text) → (p : Text) × (ps : List Text) × (split c s ≡ p ∷ ps)
  unfolding split
  split_cons [] = ([], [], refl)
  split_cons (x ∷ s) = elim (Bool-cases (nat_beq x c)) [
    | inl here ↦ ([], split c s, rw here)
    | inr other ↦ let (p, ps, e) = split_cons s in (x ∷ p, ps, rw (other, e))
  ]

  Free-push_head :
      (x : ℕ) (ps : List Text)
      → nat_beq x c ≡ false
      → nat_beq c x ≡ false
      → Free c ps
      → Free c (push_head x ps)
  unfolding has
  Free-push_head x [] h k f = (ground arith, tt)
  Free-push_head x (p ∷ ps) h k (f, fs) = (ground arith, fs)

  pub Free-split : (s : Text) → Free c (split c s)
  unfolding split has
  Free-split [] = (refl, tt)
  Free-split (x ∷ s) = elim (Bool-cases (nat_beq x c)) [
    | inl here ↦ rw here (refl, Free-split s)
    | inr other ↦ rw other (Free-push_head x (split c s) other (ground arith) (Free-split s))
  ]

  pub split_free : (s : Text) → has c s ≡ false → split c s ≡ s ∷ []
  unfolding split has
  split_free [] h = refl
  split_free (x ∷ s) h =
      let other : nat_beq x c ≡ false = ground arith in rw (other, split_free s (ground arith))

  pub split-append_cons : (p s : Text) → has c p ≡ false → split c (p ++ c ∷ s) ≡ p ∷ split c s
  unfolding split has
  split-append_cons [] s h = rw (nat_beq_iff c c).1 refl
  split-append_cons (x ∷ p) s h =
      let other : nat_beq x c ≡ false = ground arith in
      rw (other, split-append_cons p s (ground arith))

  pub split-join :
      (p : Text) (ps : List Text) → Free c (p ∷ ps) → split c (join c (p ∷ ps)) ≡ p ∷ ps
  unfolding join
  split-join p [] (h, hs) = split_free p h
  split-join p (q ∷ ps) (h, hs) =
      rw (split-append_cons p (join c (q ∷ ps)) h) (ap (λ r. p ∷ r) (split-join q ps hs))

  join-push_head :
      (x : ℕ) (p : Text) (ps : List Text) → join c (push_head x (p ∷ ps)) ≡ x ∷ join c (p ∷ ps)
  unfolding join
  join-push_head x p [] = refl
  join-push_head x p (q ∷ ps) = refl

  join_nil : (p : Text) (ps : List Text) → join c ([] ∷ p ∷ ps) ≡ c ∷ join c (p ∷ ps)
  unfolding join
  join_nil p ps = refl

  pub join-split : (s : Text) → join c (split c s) ≡ s
  unfolding split
  join-split [] = unfold join in refl
  join-split (x ∷ s) =
      let (p, ps, e) = split_cons s in
      let ih : join c (p ∷ ps) ≡ s = rw (← e) (join-split s) in
      elim (Bool-cases (nat_beq x c)) [
        | inl here ↦ let same = (nat_beq_iff x c).0 here in rw (here, e, join_nil, ih, same)
        | inr other ↦ rw (other, e, join-push_head, ih)
      ]

  -- The part before the first separator is free of it, and the two parts make up the text.
  pub split_once-some :
      (s a b : Text) → split_once c s ≡ some (a, b) → (s ≡ a ++ c ∷ b) × (has c a ≡ false)
  unfolding split_once has
  split_once-some [] a b h = cc
  split_once-some (x ∷ s) [] b h = ground arith
  split_once-some (x ∷ s) (y ∷ a) b h =
      let rest : split_once c s ≡ some (a, b) = ground arith in
      let (e, f) = split_once-some s a b rest in (ground (arith, e), ground (arith, f))

  pub split_once-none : (s : Text) → split_once c s ≡ none → has c s ≡ false
  unfolding split_once has
  split_once-none [] h = refl
  split_once-none (x ∷ s) h = ground (arith, split_once-none s)

  pub split_once-append : (a b : Text) → has c a ≡ false → split_once c (a ++ c ∷ b) ≡ some (a, b)
  unfolding split_once has
  split_once-append [] b h = rw (nat_beq_iff c c).1 refl
  split_once-append (x ∷ a) b h = ground (arith, split_once-append a b)

  pub split_once_free : (s : Text) → has c s ≡ false → split_once c s ≡ none
  unfolding split_once has
  split_once_free [] h = refl
  split_once_free (x ∷ s) h = ground (arith, split_once_free s)

  pub Free-append : (ps qs : List Text) → Free c ps → Free c qs → Free c (ps ++ qs)
  Free-append [] qs f g = g
  Free-append (p ∷ ps) qs (f, fs) g = (f, Free-append ps qs fs g)
