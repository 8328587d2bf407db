-- ===== src/Library/Reload/Segments.antt =====
-- The name of a service's file, and what a lookup reads of the map of segments.
use gostly_ai_proxy.Base.{
  ◌≡◌, refl, ap, sym, ◌∙◌, Option, none, some, [], ◌∷◌, ◌++◌, arith, Text, text_eq, triple_eq, ◌==◌,
  eq_iff, nat_beq, nat_beq_iff, Option-cases, Bool-cases, inl, inr, codes,
}
use mathlib.Core.List.{reverse, reverse-reverse}
use mathlib.Core.Option.{some-injective}
use gostly_ai_proxy.Base.HashMap
use gostly_ai_proxy.Base.HashMap.{
  values, Unique, insert-Unique, remove-Unique, get-insert, get-insert_self, get-remove, get-empty,
}
use gostly_ai_proxy.Types.{MockEntry}
use gostly_ai_proxy.Library.{Key, MockSegment, find_in_segment, find_in_segments}
use gostly_ai_proxy.Library.Lookup.{Segments, find_in_segment-OwnedBy}
use gostly_ai_proxy.Library.Reload.Isolated.{AllOwned}
use gostly_ai_proxy.Library.Reload.{strip_prefix, segment_name}

strip_prefix-some : (p s r : Text) → strip_prefix p s ≡ some r → s ≡ p ++ r
unfolding strip_prefix
strip_prefix-some [] s r h = some-injective s r h
strip_prefix-some (x ∷ p) [] r h = cc
strip_prefix-some (x ∷ p) (y ∷ s) r h = elim (Bool-cases (nat_beq y x)) [
  | inl same ↦
      let here = (nat_beq_iff y x).0 same in let rest = strip_prefix-some p s r (rw same at h) in cc
  | inr other ↦ absurd (cc (rw other at h))
]

-- The file of a service.
abbrev pub file_of : Text → Text
file_of svc = codes "mock_" ++ reverse (reverse (codes ".jsonl") ++ reverse svc)

pub segment_name-file_of : (fname svc : Text) → segment_name fname ≡ some svc → fname ≡ file_of svc
unfolding segment_name
segment_name-file_of fname svc h = elim (Option-cases (strip_prefix (codes "mock_") fname)) [
  | inl e ↦ absurd (cc (rw e at h))
  | inr (rest, e) ↦ elim (Option-cases (strip_prefix (reverse (codes ".jsonl")) (reverse rest))) [
    | inl e' ↦ absurd (cc (rw (e, e') at h))
    | inr (name, e') ↦
        let its_name : reverse name ≡ svc = some-injective (reverse name) svc (rw (e, e') at h) in
        let back : name ≡ reverse svc = sym (reverse-reverse name) ∙ ap reverse its_name in
        let its_rest : rest ≡ reverse (reverse (codes ".jsonl") ++ name) =
          sym (reverse-reverse rest)
          ∙ ap reverse {x = reverse rest}
              (strip_prefix-some (reverse (codes ".jsonl")) (reverse rest) name e') in
        strip_prefix-some (codes "mock_") fname rest e
        ∙ ap (λ r. codes "mock_" ++ r)
            (its_rest ∙ ap (λ n. reverse (reverse (codes ".jsonl") ++ n)) back)
  ]
]

-- What a lookup of a service reads of the segment that the map has for it.
abbrev pub answer : Option MockSegment → Text → Key → Option MockEntry
answer none svc key = none
answer (some seg) svc key = find_in_segment seg svc key

or_none :
    (o rest : Option MockEntry)
    → rest ≡ none
    → elim o as (λ _. Option MockEntry) [ none ↦ rest | some entry ↦ some entry ] ≡ o
or_none none rest h = h
or_none (some entry) rest h = refl

or_left :
    (o rest : Option MockEntry)
    → o ≡ none
    → elim o as (λ _. Option MockEntry) [ none ↦ rest | some entry ↦ some entry ] ≡ rest
or_left none rest h = refl
or_left (some entry) rest h = cc

pub find_in_segments-get :
    (segs : Segments) (svc : Text) (key : Key)
    → Unique segs
    → AllOwned segs
    → find_in_segments (values segs) svc key ≡ answer (HashMap.get segs svc) svc key
unfolding find_in_segments HashMap.get
find_in_segments-get [] svc key u owned = refl
find_in_segments-get ((n, s) ∷ segs) svc key (fresh, u) (own, owned) =
    let rest = find_in_segments-get segs svc key u owned in
    elim (Bool-cases (n == svc)) [
      | inl same ↦
          let gone =
            ap (λ o. answer o svc key)
              (ap (HashMap.get segs) (sym ((eq_iff n svc).0 same)) ∙ fresh) in
          rw same (or_none (find_in_segment s svc key) _ (rest ∙ gone))
      | inr other ↦
          let away = find_in_segment-OwnedBy n s svc key own (λ e. grind (arith, eq_iff n svc)) in
          rw other (or_left (find_in_segment s svc key) _ away ∙ rest)
    ]
