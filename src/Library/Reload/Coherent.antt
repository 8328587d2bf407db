-- ===== src/Library/Reload/Coherent.antt =====
-- The watcher's reload of one file against a full reload: what is found in that file's service.
use gostly_ai_proxy.Base.{
  ◌≡◌, refl, ap, sym, ◌∙◌, Option, none, some, [], ◌∷◌, Text, text_eq, triple_eq, ◌==◌, eq_iff,
  eq_refl, Option-cases, Bool-cases, inl, inr, true, false,
}
use mathlib.Core.Option.{some-injective}
use gostly_ai_proxy.Base.HashMap
use gostly_ai_proxy.Base.HashMap.{
  values, Unique, insert-Unique, remove-Unique, get-insert, get-insert_self, get-remove, get-empty,
}
use gostly_ai_proxy.Library.{MockSegment, MockLibrary, empty_library, find_exact}
use gostly_ai_proxy.Library.Owned.{IsOwned}
use gostly_ai_proxy.Library.Reload.Isolated.{
  load_one_segment-OwnedBy, load_all_service_mocks-IsOwned, reload_one_file-IsOwned, reload_gone,
  reload_found,
}
use gostly_ai_proxy.Library.Reload.{
  Serde, Dir, segment_name, load_one_segment, load_entries, load_all_service_mocks, load_file,
  reload_one_file,
}
use gostly_ai_proxy.Library.Reload.Segments.{
  file_of, segment_name-file_of, answer, find_in_segments-get,
}

-- What the map has for a service after a load that gave something, or did not.
abbrev loaded_or : Option (Text × MockSegment) → Option MockSegment → Option MockSegment
loaded_or none before = before
loaded_or (some (_, seg)) before = some seg

module _ (serde : Serde) where
  -- Two files of one service are the same file.
  other_service :
      (f fname name svc : Text)
      → segment_name f ≡ some name
      → segment_name fname ≡ some svc
      → (f == fname) ≡ false
      → (name == svc) ≡ false
  other_service f fname name svc named named' other =
      let ours = segment_name-file_of f name named in
      let theirs = segment_name-file_of fname svc named' in
      elim (Bool-cases (name == svc)) [
        | inl same ↦
            let together : f ≡ fname = ours ∙ ap file_of ((eq_iff name svc).0 same) ∙ sym theirs in
            absurd (cc (other, (eq_iff f fname).1 together))
        | inr away ↦ away
      ]

  load_entries-Unique :
      (files : Dir) (lib : MockLibrary)
      → Unique lib.segments
      → Unique (load_entries serde files lib).segments
  unfolding load_entries
  load_entries-Unique [] lib u = u
  load_entries-Unique ((f, content) ∷ files) lib u =
      elim (Option-cases (load_one_segment serde f content)) [
        | inl skipped ↦ rw (skipped, load_entries) (load_entries-Unique files lib u)
        | inr ((name, seg), loaded) ↦
            rw (loaded, load_entries)
              (load_entries-Unique files _ (insert-Unique lib.segments name seg u))
      ]

  gone_after :
      (files : Dir) (f fname : Text)
      → HashMap.get files f ≡ none
      → (f == fname) ≡ true
      → load_file serde files fname ≡ none
  gone_after files f fname fresh same =
      let gone = ap (HashMap.get files) (sym ((eq_iff f fname).0 same)) ∙ fresh in
      rw (gone, load_file) refl

  load_file_empty : (fname : Text) → load_file serde [] fname ≡ none
  unfolding HashMap.get
  load_file_empty fname = refl

  load_file_here :
      (f fname content : Text) (files : Dir)
      → (f == fname) ≡ true
      → load_file serde ((f, content) ∷ files) fname ≡ load_one_segment serde f content
  unfolding HashMap.get
  load_file_here f fname content files same =
      rw (same, load_file)
        (ap (λ x. load_one_segment serde x content) (sym ((eq_iff f fname).0 same)))

  load_file_there :
      (f fname content : Text) (files : Dir)
      → (f == fname) ≡ false
      → load_file serde ((f, content) ∷ files) fname ≡ load_file serde files fname
  unfolding HashMap.get
  load_file_there f fname content files other = rw (other, load_file) refl

  -- A load of a directory gives a service what its file gives.
  get-load_entries :
      (files : Dir) (lib : MockLibrary) (fname svc : Text)
      → Unique files
      → segment_name fname ≡ some svc
      → HashMap.get (load_entries serde files lib).segments svc
        ≡ loaded_or (load_file serde files fname) (HashMap.get lib.segments svc)
  unfolding load_entries
  get-load_entries [] lib fname svc u named =
      ap (λ o. loaded_or o (HashMap.get lib.segments svc)) (sym (load_file_empty fname))
  get-load_entries ((f, content) ∷ files) lib fname svc (fresh, u) named =
      elim (Option-cases (load_one_segment serde f content)) [
        | inl skipped ↦
            let rest = get-load_entries files lib fname svc u named in
            elim (Bool-cases (f == fname)) [
              | inl same ↦
                  rw (skipped, load_entries)
                    (rw (load_file_here f fname content files same, skipped)
                      (rest
                        ∙ ap (λ o. loaded_or o (HashMap.get lib.segments svc))
                            (gone_after files f fname fresh same)))
              | inr other ↦
                  rw (skipped, load_entries) (rw (load_file_there f fname content files other) rest)
            ]
        | inr ((name, seg), loaded) ↦
            let named' = (load_one_segment-OwnedBy serde f content name seg loaded).0 in
            let rest =
              get-load_entries files (record { segments = HashMap.insert lib.segments name seg })
                fname svc u named in
            elim (Bool-cases (f == fname)) [
              | inl same ↦
                  let here = (eq_iff f fname).0 same in
                  let ours : name ≡ svc =
                    some-injective name svc (sym named' ∙ ap segment_name here ∙ named) in
                  let inserted : HashMap.get (HashMap.insert lib.segments name seg) svc ≡ some seg =
                    rw ours (get-insert_self lib.segments svc seg) in
                  rw (loaded, load_entries)
                    (rw (load_file_here f fname content files same, loaded)
                      (rest
                        ∙ ap
                            (λ o.
                              loaded_or o (HashMap.get (HashMap.insert lib.segments name seg) svc))
                            (gone_after files f fname fresh same)
                        ∙ inserted))
              | inr other ↦
                  let away = other_service f fname name svc named' named other in
                  rw (loaded, load_entries)
                    (rw (load_file_there f fname content files other) (
                      rest
                      ∙ ap (loaded_or (load_file serde files fname)) (rw (get-insert, away) refl)))
            ]
      ]

  reload_one_file-Unique :
      (files : Dir) (fname svc : Text) (lib : MockLibrary)
      → segment_name fname ≡ some svc
      → Unique lib.segments
      → Unique (reload_one_file serde files fname lib).segments
  reload_one_file-Unique files fname svc lib named u =
      elim (Option-cases (load_file serde files fname)) [
        | inl gone ↦
            rw (reload_gone serde files fname lib svc named gone) (remove-Unique lib.segments svc u)
        | inr ((name, seg), loaded) ↦
            rw (reload_found serde files fname lib svc name seg named loaded)
              (insert-Unique lib.segments svc seg u)
      ]

  get-reload_one_file :
      (files : Dir) (lib : MockLibrary) (fname svc : Text)
      → segment_name fname ≡ some svc
      → HashMap.get (reload_one_file serde files fname lib).segments svc
        ≡ loaded_or (load_file serde files fname) none
  get-reload_one_file files lib fname svc named =
      elim (Option-cases (load_file serde files fname)) [
        | inl gone ↦
            rw (reload_gone serde files fname lib svc named gone, gone)
              (rw (get-remove, eq_refl svc) refl)
        | inr ((name, seg), loaded) ↦
            rw (reload_found serde files fname lib svc name seg named loaded, loaded)
              (get-insert_self lib.segments svc seg)
      ]

  -- In a library with one segment for each service, in which the segments hold their own services
  -- alone and every entry stands under its own key, and a directory that has each name once: after
  -- the watcher's reload of the file of a service, whether the file was changed, created or
  -- removed, a lookup in that service finds what it finds after a full reload of the directory.
  pub reload_one_file-load_all_service_mocks :
      (files : Dir) (lib : MockLibrary) (fname svc method uri tenant : Text)
      → Unique files
      → Unique lib.segments
      → IsOwned lib
      → segment_name fname ≡ some svc
      → find_exact (reload_one_file serde files fname lib) svc method uri tenant
        ≡ find_exact (load_all_service_mocks serde files) svc method uri tenant
  unfolding find_exact load_all_service_mocks HashMap.get
  reload_one_file-load_all_service_mocks files lib fname svc method uri tenant u u' owned named =
      find_in_segments-get (reload_one_file serde files fname lib).segments svc
        (method, uri, tenant) (reload_one_file-Unique files fname svc lib named u')
        (reload_one_file-IsOwned serde files fname lib owned)
      ∙ ap (λ o. answer o svc (method, uri, tenant))
          (get-reload_one_file files lib fname svc named
            ∙ sym (get-load_entries files empty_library fname svc u named))
      ∙ sym (
          find_in_segments-get (load_entries serde files empty_library).segments svc
            (method, uri, tenant) (load_entries-Unique files empty_library tt)
            (load_all_service_mocks-IsOwned serde files))
