-- ===== src/Library/Every.antt =====
-- A property of every entry of a library, and what publishing does to it.
use gostly_ai_proxy.Base.{[], Text, text_eq, triple_eq, All, Option-cases, inl, inr}
use mathlib.Core.Option.{get_or}
use gostly_ai_proxy.Base.HashMap
use gostly_ai_proxy.Base.HashMap.{HashMap, values, All-insert, All-get}
use gostly_ai_proxy.Types.{MockEntry}
use gostly_ai_proxy.Library.{
  Key, ServiceMocks, MockSegment, MockLibrary, empty_segment, key_of, add_to_segment, publish,
}

module _ (P : MockEntry → Type 0) where
  abbrev pub EveryOf : ServiceMocks → Type 0
  EveryOf = All (λ (b : Key × MockEntry). P b.1)

  abbrev pub EveryIn : MockSegment → Type 0
  EveryIn seg = All (λ (b : Text × ServiceMocks). EveryOf b.1) seg.services

  abbrev pub Every : MockLibrary → Type 0
  Every lib = All (λ (b : Text × MockSegment). EveryIn b.1) lib.segments

  EveryOf-get_or :
      (seg : MockSegment) (svc : Text)
      → EveryIn seg
      → EveryOf (get_or (HashMap.get seg.services svc) [])
  EveryOf-get_or seg svc h = elim (Option-cases (HashMap.get seg.services svc)) [
    | inl e ↦ rw e tt
    | inr (m, e) ↦ rw e (All-get (λ (b : Text × ServiceMocks). EveryOf b.1) seg.services svc h e)
  ]

  EveryIn-get_or :
      (lib : MockLibrary) (svc : Text)
      → Every lib
      → EveryIn (get_or (HashMap.get lib.segments svc) empty_segment)
  EveryIn-get_or lib svc h = elim (Option-cases (HashMap.get lib.segments svc)) [
    | inl e ↦ rw e tt
    | inr (seg, e) ↦ rw e (All-get (λ (b : Text × MockSegment). EveryIn b.1) lib.segments svc h e)
  ]

  add_to_segment-EveryIn :
      (svc : Text) (entry : MockEntry) (seg : MockSegment)
      → P entry
      → EveryIn seg
      → EveryIn (add_to_segment svc entry seg)
  unfolding add_to_segment
  add_to_segment-EveryIn svc entry seg p h =
      All-insert (λ (b : Text × ServiceMocks). EveryOf b.1) seg.services svc _
        (All-insert (λ (b : Key × MockEntry). P b.1) (get_or (HashMap.get seg.services svc) [])
          (key_of entry) entry p (EveryOf-get_or seg svc h))
        h

  pub publish-Every :
      (svc : Text) (entry : MockEntry) (lib : MockLibrary)
      → P entry
      → Every lib
      → Every (publish svc entry lib)
  unfolding publish
  publish-Every svc entry lib p h =
      All-insert (λ (b : Text × MockSegment). EveryIn b.1) lib.segments svc _
        (add_to_segment-EveryIn svc entry _ p (EveryIn-get_or lib svc h)) h
