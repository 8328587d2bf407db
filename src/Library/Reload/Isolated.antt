-- ===== src/Library/Reload/Isolated.antt =====
-- What a reload of one file touches: the invariant of the library holds of whatever is on disk, and
-- the watcher's reload of a file leaves the other services' answers alone.
use gostly_ai_proxy.Base.{
  ◌≡◌, refl, ◌≢◌, ap, sym, ◌∙◌, none, some, [], ◌∷◌, arith, Text, text_eq, triple_eq, ◌==◌, eq_iff,
  All, Option-cases, Bool-cases, inl, inr, lines,
}
use mathlib.Core.Option.{some-injective, none-ne-some}
use gostly_ai_proxy.Base.HashMap
use gostly_ai_proxy.Base.HashMap.{HashMap, values, All-insert, All-remove}
use gostly_ai_proxy.Library.{
  Key, ServiceMocks, MockSegment, MockLibrary, empty_library, find_in_segments, find_exact,
}
use gostly_ai_proxy.Library.Owned.{IsKeyed, OwnedBy, IsOwned}
use gostly_ai_proxy.Library.Lookup.{Segments, find_in_segment-OwnedBy}
use gostly_ai_proxy.Library.Reload.Durable.{
  load_one_segment_unnamed, load_one_segment_named, insert_lines-IsKeyed,
}
use gostly_ai_proxy.Library.Reload.{
  Serde, Dir, segment_name, insert_lines, segment_of, load_one_segment, load_entries,
  load_all_service_mocks, load_file, reload_one_file,
}

abbrev pub AllOwned : Segments → Type 0
AllOwned = All (λ (b : Text × MockSegment). OwnedBy b.0 b.1)

insert-elsewhere :
    (segs : Segments) (name : Text) (seg : MockSegment) (svc : Text) (key : Key)
    → AllOwned segs
    → OwnedBy name seg
    → name ≢ svc
    → find_in_segments (values (HashMap.insert segs name seg)) svc key
      ≡ find_in_segments (values segs) svc key
unfolding find_in_segments HashMap.insert
insert-elsewhere [] name seg svc key owned own other =
    ground (arith, find_in_segment-OwnedBy name seg svc key own other)
insert-elsewhere ((n, s) ∷ segs) name seg svc key (here, owned) own other =
    elim (Bool-cases (n == name)) [
      | inl same ↦
          let at_name = (eq_iff n name).0 same in
          rw same (
            ground (
              arith,
              find_in_segment-OwnedBy name seg svc key own other,
              find_in_segment-OwnedBy n s svc key here (λ e. other (sym at_name ∙ e)),
            ))
      | inr away ↦ rw away (ground (arith, insert-elsewhere segs name seg svc key owned own other))
    ]

remove-elsewhere :
    (segs : Segments) (name : Text) (svc : Text) (key : Key)
    → AllOwned segs
    → name ≢ svc
    → find_in_segments (values (HashMap.remove segs name)) svc key
      ≡ find_in_segments (values segs) svc key
unfolding find_in_segments HashMap.remove
remove-elsewhere [] name svc key owned other = refl
remove-elsewhere ((n, s) ∷ segs) name svc key (here, owned) other =
    let rest = remove-elsewhere segs name svc key owned other in
    elim (Bool-cases (n == name)) [
      | inl same ↦
          let at_name = (eq_iff n name).0 same in
          rw same (
            ground (
              arith,
              rest,
              find_in_segment-OwnedBy n s svc key here (λ e. other (sym at_name ∙ e)),
            ))
      | inr away ↦ rw away (ground (arith, rest))
    ]

module _ (serde : Serde) where
  -- The name that a load gives is the file's, and its segment is that service's alone.
  segment_of-OwnedBy :
      (svc : Text) (m : ServiceMocks) (name : Text) (seg : MockSegment)
      → IsKeyed m
      → segment_of serde svc m ≡ some (name, seg)
      → (name ≡ svc) × OwnedBy name seg
  segment_of-OwnedBy svc [] name seg keyed h = cc
  segment_of-OwnedBy svc (b ∷ m) name seg keyed h =
      let same =
        some-injective (svc, record { services = HashMap.insert [] svc (b ∷ m) }) (name, seg) h in
      let its_name : svc ≡ name = ap (λ (p : Text × MockSegment). p.0) same in
      let its_seg : record { services = HashMap.insert [] svc (b ∷ m) } ≡ seg =
        ap (λ (p : Text × MockSegment). p.1) same in
      rw (← its_name, ← its_seg) (refl, unfold HashMap.insert in ((refl, keyed), tt))

  pub load_one_segment-OwnedBy :
      (fname content name : Text) (seg : MockSegment)
      → load_one_segment serde fname content ≡ some (name, seg)
      → (segment_name fname ≡ some name) × OwnedBy name seg
  load_one_segment-OwnedBy fname content name seg h = elim (Option-cases (segment_name fname)) [
    | inl unnamed ↦ absurd (cc (h, load_one_segment_unnamed serde fname content unnamed))
    | inr (svc, named) ↦
        let m = insert_lines serde [] (lines content) in
        let (same, own) =
          segment_of-OwnedBy svc m name seg (insert_lines-IsKeyed serde [] (lines content) tt)
            (sym (load_one_segment_named serde fname content svc named) ∙ h) in
        (named ∙ ap some (sym same), own)
  ]

  load_entries-IsOwned :
      (files : Dir) (lib : MockLibrary) → IsOwned lib → IsOwned (load_entries serde files lib)
  unfolding load_entries
  load_entries-IsOwned [] lib owned = owned
  load_entries-IsOwned ((fname, content) ∷ files) lib owned =
      elim (Option-cases (load_one_segment serde fname content)) [
        | inl skipped ↦ rw (skipped, load_entries) (load_entries-IsOwned files lib owned)
        | inr ((name, seg), loaded) ↦
            let own = (load_one_segment-OwnedBy fname content name seg loaded).1 in
            rw (loaded, load_entries)
              (load_entries-IsOwned files _
                (All-insert (λ b. OwnedBy b.0 b.1) lib.segments name seg own owned))
      ]

  -- The library read from any directory at all keeps each service in its own segment and each entry
  -- under its own method, URI and tenant.
  pub load_all_service_mocks-IsOwned : (files : Dir) → IsOwned (load_all_service_mocks serde files)
  unfolding load_all_service_mocks
  load_all_service_mocks-IsOwned files = load_entries-IsOwned files empty_library tt

  pub load_file-OwnedBy :
      (files : Dir) (fname svc name : Text) (seg : MockSegment)
      → segment_name fname ≡ some svc
      → load_file serde files fname ≡ some (name, seg)
      → OwnedBy svc seg
  load_file-OwnedBy files fname svc name seg named h =
      elim (Option-cases (HashMap.get files fname)) [
        | inl missing ↦ absurd (none-ne-some (name, seg) (rw (missing, load_file) at h))
        | inr (content, there) ↦
            let (named', own) =
              load_one_segment-OwnedBy fname content name seg (rw (there, load_file) at h) in
            rw (some-injective svc name (sym named ∙ named')) own
      ]

  pub reload_gone :
      (files : Dir) (fname : Text) (lib : MockLibrary) (name : Text)
      → segment_name fname ≡ some name
      → load_file serde files fname ≡ none
      → reload_one_file serde files fname lib
        ≡ record { segments = HashMap.remove lib.segments name }
  unfolding reload_one_file
  reload_gone files fname lib name named gone = rw (named, gone, reload_one_file)

  pub reload_found :
      (files : Dir) (fname : Text) (lib : MockLibrary) (name name' : Text) (seg : MockSegment)
      → segment_name fname ≡ some name
      → load_file serde files fname ≡ some (name', seg)
      → reload_one_file serde files fname lib
        ≡ record { segments = HashMap.insert lib.segments name seg }
  unfolding reload_one_file
  reload_found files fname lib name name' seg named found = rw (named, found, reload_one_file)

  reload_unnamed :
      (files : Dir) (fname : Text) (lib : MockLibrary)
      → segment_name fname ≡ none
      → reload_one_file serde files fname lib ≡ lib
  unfolding reload_one_file
  reload_unnamed files fname lib unnamed = rw (unnamed, reload_one_file)

  abbrev Isolated : Text → MockLibrary → MockLibrary → Type 0
  Isolated fname lib lib' =
      IsOwned lib'
      × ((svc method uri tenant : Text)
          → segment_name fname ≢ some svc
          → find_exact lib' svc method uri tenant ≡ find_exact lib svc method uri tenant)

  reload_one_file-Isolated :
      (files : Dir) (fname : Text) (lib : MockLibrary)
      → IsOwned lib
      → Isolated fname lib (reload_one_file serde files fname lib)
  unfolding find_exact
  reload_one_file-Isolated files fname lib owned = elim (Option-cases (segment_name fname)) [
    | inl unnamed ↦
        rw (reload_unnamed files fname lib unnamed) (owned, λ svc method uri tenant other. refl)
    | inr (name, named) ↦
        let elsewhere : (svc : Text) → segment_name fname ≢ some svc → name ≢ svc =
          λ svc other e. other (named ∙ ap some e) in
        elim (Option-cases (load_file serde files fname)) [
          | inl gone ↦ rw (reload_gone files fname lib name named gone) (
            All-remove (λ b. OwnedBy b.0 b.1) lib.segments name owned,
            λ svc method uri tenant other.
                remove-elsewhere lib.segments name svc (method, uri, tenant) owned
                  (elsewhere svc other),
          )
          | inr ((name', seg), loaded) ↦
              let own = load_file-OwnedBy files fname name name' seg named loaded in
              rw (reload_found files fname lib name name' seg named loaded) (
                All-insert (λ b. OwnedBy b.0 b.1) lib.segments name seg own owned,
                λ svc method uri tenant other.
                    insert-elsewhere lib.segments name seg svc (method, uri, tenant) owned own
                      (elsewhere svc other),
              )
        ]
  ]

  -- One reload of a file, whatever it holds and even if it is gone, keeps a library in which the
  -- segments hold their own services alone and every entry stands under its own key.
  pub reload_one_file-IsOwned :
      (files : Dir) (fname : Text) (lib : MockLibrary)
      → IsOwned lib
      → IsOwned (reload_one_file serde files fname lib)
  reload_one_file-IsOwned files fname lib owned = (reload_one_file-Isolated files fname lib owned).0

  -- In a library whose segments hold their own services alone, with every entry under its own key,
  -- one reload of a file, whatever it holds and even if it is gone, leaves every
  -- lookup in a service that is not the file's as it was.
  pub reload_one_file_elsewhere :
      (files : Dir) (fname : Text) (lib : MockLibrary) (svc method uri tenant : Text)
      → IsOwned lib
      → segment_name fname ≢ some svc
      → find_exact (reload_one_file serde files fname lib) svc method uri tenant
        ≡ find_exact lib svc method uri tenant
  reload_one_file_elsewhere files fname lib svc method uri tenant owned other =
      (reload_one_file-Isolated files fname lib owned).1 svc method uri tenant other
