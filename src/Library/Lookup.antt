-- ===== src/Library/Lookup.antt =====
-- What a lookup finds after an entry is published, and that it never leaves its tenant.
use gostly_ai_proxy.Base.{
  ◌≡◌, refl, ◌≢◌, ap, sym, ◌∙◌, ◌&&◌, none, some, List, [], ◌∷◌, arith, Text, text_eq, triple_eq,
  ◌==◌, eq_iff, All, All-append, Option-cases, Bool-cases, inl, inr, if◌then◌else◌,
}
use mathlib.Core.Option.{get_or}
use gostly_ai_proxy.Base.HashMap
use gostly_ai_proxy.Base.HashMap.{HashMap, values, get-insert, get-empty, All-get}
use gostly_ai_proxy.Types.{MockEntry}
use gostly_ai_proxy.Library.{
  Key, ServiceMocks, MockSegment, MockLibrary, empty_segment, key_of, add_to_segment, publish,
  find_in_segment, find_in_segments, find_exact, entries_of, entries_in_segments,
  entries_for_service,
}
use gostly_ai_proxy.Library.Owned.{IsKeyed, OwnedBy, IsOwned}

find_in_segment-add :
    (svc : Text) (entry : MockEntry) (seg : MockSegment) (svc' : Text) (key : Key)
    → find_in_segment (add_to_segment svc entry seg) svc' key
      ≡ (if svc == svc' && key_of entry == key then some entry else find_in_segment seg svc' key)
unfolding find_in_segment add_to_segment
find_in_segment-add svc entry seg svc' key =
    let old : ServiceMocks = get_or (HashMap.get seg.services svc) [] in
    ground (
      arith,
      get-insert seg.services svc svc' (HashMap.insert old (key_of entry) entry),
      get-insert old (key_of entry) key entry,
      get-empty {K = Key} {V = MockEntry} key,
      eq_iff svc svc',
    )

-- A segment has nothing of another service.
pub find_in_segment-OwnedBy :
    (name : Text) (seg : MockSegment) (svc : Text) (key : Key)
    → OwnedBy name seg
    → name ≢ svc
    → find_in_segment seg svc key ≡ none
unfolding find_in_segment
find_in_segment-OwnedBy name seg svc key owned other =
    elim (Option-cases (HashMap.get seg.services svc)) [
      | inl e ↦ rw (e, find_in_segment)
      | inr (m, e) ↦
          absurd
            (other (sym (All-get (λ b. (b.0 ≡ name) × IsKeyed b.1) seg.services svc owned e).0))
    ]

empty_finds : (svc : Text) (key : Key) → find_in_segment empty_segment svc key ≡ none
unfolding find_in_segment HashMap.get
empty_finds svc key = refl

abbrev pub Segments : Type 0
Segments = HashMap Text MockSegment

-- `publish` on the map of segments.
abbrev put : Text → MockEntry → Segments → Segments
put svc entry segs =
    HashMap.insert segs svc (add_to_segment svc entry (get_or (HashMap.get segs svc) empty_segment))

find_in_segments-put :
    (svc : Text) (entry : MockEntry) (segs : Segments) (svc' : Text) (key : Key)
    → All (λ (b : Text × MockSegment). OwnedBy b.0 b.1) segs
    → find_in_segments (values (put svc entry segs)) svc' key ≡ (
        if svc == svc' && key_of entry == key
        then some entry
        else find_in_segments (values segs) svc' key)
unfolding find_in_segments HashMap.get HashMap.insert
find_in_segments-put svc entry [] svc' key owned =
    ground (arith, find_in_segment-add svc entry empty_segment svc' key, empty_finds svc' key)
find_in_segments-put svc entry ((name, seg) ∷ segs) svc' key (own, owned) =
    elim (Bool-cases (name == svc)) [
      | inl here ↦ rw here (ground (arith, find_in_segment-add svc entry seg svc' key))
      | inr there ↦ rw there (
          ground (
            arith,
            find_in_segments-put svc entry segs svc' key owned,
            find_in_segment-OwnedBy name seg svc' key own,
            eq_iff svc svc',
            eq_iff name svc,
          ))
    ]

-- In a library whose segments hold their own services alone, with every entry under its own key,
-- publishing an entry changes the answer to exactly one question: its own service, method, URI and
-- tenant now find it. Every other service, method, URI or tenant finds what it found before.
pub find_exact-publish :
    (svc : Text) (entry : MockEntry) (lib : MockLibrary) (svc' method uri tenant : Text)
    → IsOwned lib
    → find_exact (publish svc entry lib) svc' method uri tenant ≡ (
        if svc == svc' && key_of entry == (method, uri, tenant)
        then some entry
        else find_exact lib svc' method uri tenant)
unfolding find_exact publish
find_exact-publish svc entry lib svc' method uri tenant owned =
    find_in_segments-put svc entry lib.segments svc' (method, uri, tenant) owned

find_in_segment-key :
    (name : Text) (seg : MockSegment) (svc : Text) (key : Key) (e : MockEntry)
    → OwnedBy name seg
    → find_in_segment seg svc key ≡ some e
    → key ≡ key_of e
unfolding find_in_segment
find_in_segment-key name seg svc key e owned h =
    elim (Option-cases (HashMap.get seg.services svc)) [
      | inl none_there ↦ cc
      | inr (m, there) ↦
          let keyed = (All-get (λ b. (b.0 ≡ name) × IsKeyed b.1) seg.services svc owned there).1 in
          let found : HashMap.get m key ≡ some e = ground (arith, there) in
          All-get (λ b. b.0 ≡ key_of b.1) m key keyed found
    ]

find_in_segments-key :
    (segs : Segments) (svc : Text) (key : Key) (e : MockEntry)
    → All (λ (b : Text × MockSegment). OwnedBy b.0 b.1) segs
    → find_in_segments (values segs) svc key ≡ some e
    → key ≡ key_of e
unfolding find_in_segments
find_in_segments-key [] svc key e owned h = cc
find_in_segments-key ((name, seg) ∷ segs) svc key e (own, owned) h =
    elim (Option-cases (find_in_segment seg svc key)) [
      | inl missed ↦ find_in_segments-key segs svc key e owned (ground (arith, missed))
      | inr (e', found) ↦ find_in_segment-key name seg svc key e own (ground (arith, found))
    ]

-- In a library whose segments hold their own services alone, with every entry under its own key, a
-- lookup answers only with an entry that was recorded under the method, the URI
-- and the tenant asked for.
pub find_exact-key :
    (lib : MockLibrary) (svc method uri tenant : Text) (e : MockEntry)
    → IsOwned lib
    → find_exact lib svc method uri tenant ≡ some e
    → (e.request.method ≡ method) × (e.request.uri ≡ uri) × (e.tenant ≡ tenant)
unfolding find_exact
find_exact-key lib svc method uri tenant e owned h =
    let same : ◌≡◌ {A = Key} (method, uri, tenant) (key_of e) =
      find_in_segments-key lib.segments svc (method, uri, tenant) e owned h in
    (
      sym (ap (λ (k : Key). k.0) same),
      sym (ap (λ (k : Key). k.1) same),
      sym (ap (λ (k : Key). k.2) same),
    )

abbrev pub OfTenant : Text → List MockEntry → Type 0
OfTenant t = All (λ (e : MockEntry). e.tenant ≡ t)

entries_of-tenant : (t : Text) (m : ServiceMocks) → IsKeyed m → OfTenant t (entries_of (some t) m)
unfolding entries_of
entries_of-tenant t [] keyed = tt
entries_of-tenant t (((method, uri, t'), e) ∷ m) (k, keyed) = elim (Bool-cases (t == t')) [
  | inl same ↦
      let stored : t' ≡ e.tenant = ap (λ (k : Key). k.2) k in
      rw same (sym ((eq_iff t t').0 same ∙ stored), entries_of-tenant t m keyed)
  | inr other ↦ rw other (entries_of-tenant t m keyed)
]

entries_in_segments-tenant :
    (segs : Segments) (svc t : Text)
    → All (λ (b : Text × MockSegment). OwnedBy b.0 b.1) segs
    → OfTenant t (entries_in_segments (values segs) svc (some t))
unfolding entries_in_segments
entries_in_segments-tenant [] svc t owned = tt
entries_in_segments-tenant ((name, seg) ∷ segs) svc t (own, owned) =
    let rest = entries_in_segments-tenant segs svc t owned in
    elim (Option-cases (HashMap.get seg.services svc)) [
      | inl missed ↦ rw (missed, entries_in_segments) rest
      | inr (m, there) ↦
          let keyed = (All-get (λ b. (b.0 ≡ name) × IsKeyed b.1) seg.services svc own there).1 in
          rw (there, entries_in_segments)
            (All-append (λ e. e.tenant ≡ t) (entries_of (some t) m) _ (entries_of-tenant t m keyed)
              rest)
    ]

-- In such a library the entries of a service that are listed for a tenant, the corpus of its smart
-- swap, are that tenant's alone.
pub entries_for_service-tenant :
    (lib : MockLibrary) (svc t : Text)
    → IsOwned lib
    → OfTenant t (entries_for_service lib svc (some t))
unfolding entries_for_service
entries_for_service-tenant lib svc t owned = entries_in_segments-tenant lib.segments svc t owned
