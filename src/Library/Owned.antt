-- ===== src/Library/Owned.antt =====
-- The invariant of the library: the segment of a file holds that file's service alone, and every
-- entry stands under its own method, URI and tenant. Publishing an entry keeps it.
use gostly_ai_proxy.Base.{◌≡◌, refl, [], Text, text_eq, triple_eq, All, Option-cases, inl, inr}
use mathlib.Core.Option.{get_or}
use gostly_ai_proxy.Base.HashMap
use gostly_ai_proxy.Base.HashMap.{HashMap, All-insert, All-get}
use gostly_ai_proxy.Types.{MockEntry}
use gostly_ai_proxy.Library.{
  Key, ServiceMocks, MockSegment, MockLibrary, empty_segment, key_of, add_to_segment, publish,
}

abbrev pub IsKeyed : ServiceMocks → Type 0
IsKeyed = All (λ (b : Key × MockEntry). b.0 ≡ key_of b.1)

abbrev pub OwnedBy : Text → MockSegment → Type 0
OwnedBy name seg = All (λ (b : Text × ServiceMocks). (b.0 ≡ name) × IsKeyed b.1) seg.services

abbrev pub IsOwned : MockLibrary → Type 0
IsOwned lib = All (λ (b : Text × MockSegment). OwnedBy b.0 b.1) lib.segments

IsKeyed-get_or :
    (name : Text) (seg : MockSegment) (svc : Text)
    → OwnedBy name seg
    → IsKeyed (get_or (HashMap.get seg.services svc) [])
IsKeyed-get_or name seg svc owned = elim (Option-cases (HashMap.get seg.services svc)) [
  | inl e ↦ rw e tt
  | inr (m, e) ↦ rw e (All-get (λ b. (b.0 ≡ name) × IsKeyed b.1) seg.services svc owned e).1
]

pub add_to_segment-OwnedBy :
    (svc : Text) (entry : MockEntry) (seg : MockSegment)
    → OwnedBy svc seg
    → OwnedBy svc (add_to_segment svc entry seg)
unfolding add_to_segment
add_to_segment-OwnedBy svc entry seg owned =
    All-insert (λ b. (b.0 ≡ svc) × IsKeyed b.1) seg.services svc _
      (
        refl,
        All-insert (λ b. b.0 ≡ key_of b.1) (get_or (HashMap.get seg.services svc) []) (key_of entry)
            entry refl (IsKeyed-get_or svc seg svc owned),
      )
      owned

OwnedBy-get_or :
    (lib : MockLibrary) (svc : Text)
    → IsOwned lib
    → OwnedBy svc (get_or (HashMap.get lib.segments svc) empty_segment)
OwnedBy-get_or lib svc owned = elim (Option-cases (HashMap.get lib.segments svc)) [
  | inl e ↦ rw e tt
  | inr (seg, e) ↦ rw e (All-get (λ b. OwnedBy b.0 b.1) lib.segments svc owned e)
]

-- Publishing an entry in a library whose segments hold their own services alone, with each entry
-- under its own method, URI and tenant, gives such a library.
pub publish-IsOwned :
    (svc : Text) (entry : MockEntry) (lib : MockLibrary)
    → IsOwned lib
    → IsOwned (publish svc entry lib)
unfolding publish
publish-IsOwned svc entry lib owned =
    All-insert (λ b. OwnedBy b.0 b.1) lib.segments svc _
      (add_to_segment-OwnedBy svc entry _ (OwnedBy-get_or lib svc owned)) owned
