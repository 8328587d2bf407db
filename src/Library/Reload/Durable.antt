-- ===== src/Library/Reload/Durable.antt =====
-- What a restart finds: a published entry, and the same library after the file was compacted.
use gostly_ai_proxy.Base.{
  ◌≡◌, refl, ap, sym, ◌∙◌, Bool, true, false, Option, none, some, List, [], ◌∷◌, ◌++◌, arith, Text,
  text_eq, triple_eq, ◌==◌, eq_refl, All, All-append, join-unlines, unlines-append_one,
  Option-cases, Bool-cases, inl, inr, ◌⊎◌, lines, unlines, IsClean, lines-unlines, if◌then◌else◌,
}
use mathlib.Core.List.{append-nil}
use gostly_ai_proxy.Base.HashMap
use gostly_ai_proxy.Base.HashMap.{
  HashMap, values, Unique, insert-Unique, insert-Unique_middle, All-insert, get-insert_self,
}
use gostly_ai_proxy.Types.{MockEntry}
use gostly_ai_proxy.Library.{Key, ServiceMocks, MockSegment, empty_segment, key_of, add_to_segment}
use gostly_ai_proxy.Library.Owned.{IsKeyed}
use gostly_ai_proxy.Library.Reload.{
  Serde, SerdeLaws, segment_name, insert_lines, print_all, compacted, segment_of, load_one_segment,
  rewritten,
}

-- The segment in memory after a load, empty where the file gave none.
abbrev pub segment_or_empty : Option (Text × MockSegment) → MockSegment
segment_or_empty none = empty_segment
segment_or_empty (some (_, seg)) = seg

module _ (serde : Serde) where
  insert_lines_bad :
      (m : ServiceMocks) (l : Text) (ls : List Text)
      → serde.parse l ≡ none
      → insert_lines serde m (l ∷ ls) ≡ insert_lines serde m ls
  unfolding insert_lines
  insert_lines_bad m l ls h = rw (h, insert_lines)

  insert_lines_good :
      (m : ServiceMocks) (l : Text) (ls : List Text) (e : MockEntry)
      → serde.parse l ≡ some e
      → insert_lines serde m (l ∷ ls) ≡ insert_lines serde (HashMap.insert m (key_of e) e) ls
  unfolding insert_lines
  insert_lines_good m l ls e h = rw (h, insert_lines)

  print_all_cons :
      (e : MockEntry) (es : List MockEntry) (l : Text)
      → serde.print e ≡ some l
      → print_all serde (e ∷ es) ≡ l ∷ print_all serde es
  unfolding print_all
  print_all_cons e es l h = rw (h, print_all)

  pub load_one_segment_unnamed :
      (fname content : Text)
      → segment_name fname ≡ none
      → load_one_segment serde fname content ≡ none
  unfolding load_one_segment
  load_one_segment_unnamed fname content h = rw (h, load_one_segment)

  pub load_one_segment_named :
      (fname content svc : Text)
      → segment_name fname ≡ some svc
      → load_one_segment serde fname content
        ≡ segment_of serde svc (insert_lines serde [] (lines content))
  unfolding load_one_segment
  load_one_segment_named fname content svc h = rw (h, load_one_segment)

  pub insert_lines-IsKeyed :
      (m : ServiceMocks) (ls : List Text) → IsKeyed m → IsKeyed (insert_lines serde m ls)
  insert_lines-IsKeyed m [] u = unfold insert_lines in u
  insert_lines-IsKeyed m (l ∷ ls) u = elim (Option-cases (serde.parse l)) [
    | inl bad ↦ rw (insert_lines_bad m l ls bad) (insert_lines-IsKeyed m ls u)
    | inr (e, good) ↦ rw (insert_lines_good m l ls e good) (
        insert_lines-IsKeyed (HashMap.insert m (key_of e) e) ls
          (All-insert (λ b. b.0 ≡ key_of b.1) m (key_of e) e refl u))
  ]

  rewritten-none :
      (written : Bool) (fname content : Text)
      → load_one_segment serde fname content ≡ none
      → rewritten serde written fname content ≡ content
  unfolding rewritten
  rewritten-none written fname content h = ap (λ (o : Option (Text × MockSegment)). kept_or o) h
    where
      kept_or : Option (Text × MockSegment) → Text
      kept_or o = elim o [
        | none ↦ content
        | some _ ↦
            if written then compacted serde (insert_lines serde [] (lines content)) else content
      ]

  rewritten-some :
      (written : Bool) (fname content : Text) (s : Text × MockSegment)
      → load_one_segment serde fname content ≡ some s
      → (rewritten serde written fname content ≡ content)
        ⊎ ((s : Text × MockSegment) × (load_one_segment serde fname content ≡ some s)
            × (rewritten serde written fname content
                ≡ compacted serde (insert_lines serde [] (lines content))))
  unfolding rewritten
  rewritten-some true fname content s h = inr (s, h, rw (h, rewritten))
  rewritten-some false fname content s h = inl (rw (h, rewritten))

module _ (serde : Serde) (laws : SerdeLaws serde) where
  insert_lines-append :
      (m : ServiceMocks) (ls : List Text) (e : MockEntry) (l : Text)
      → serde.parse l ≡ some e
      → insert_lines serde m (ls ++ l ∷ []) ≡ HashMap.insert (insert_lines serde m ls) (key_of e) e
  unfolding insert_lines
  insert_lines-append m [] e l h = ground (arith, h)
  insert_lines-append m (k ∷ ls) e l h = elim (Option-cases (serde.parse k)) [
    | inl bad ↦ rw (bad, insert_lines) (insert_lines-append m ls e l h)
    | inr (e', good) ↦
        rw (good, insert_lines) (insert_lines-append (HashMap.insert m (key_of e') e') ls e l h)
  ]

  segment_of-insert :
      (svc : Text) (m : ServiceMocks) (e : MockEntry)
      → segment_of serde svc (HashMap.insert m (key_of e) e)
        ≡ some (svc, add_to_segment svc e (segment_or_empty (segment_of serde svc m)))
  unfolding add_to_segment HashMap.insert HashMap.get
  segment_of-insert svc [] e = refl
  segment_of-insert svc ((k, w) ∷ m) e = elim (Bool-cases (k == key_of e)) [
    | inl same ↦ rw (eq_refl svc, same)
    | inr other ↦ rw (eq_refl svc, other)
  ]

  -- A mock that was published and logged survives a restart: where the name is that of a mock file,
  -- the lines before are free of line ends and the entry prints as a line, loading the file with
  -- that line appended gives the segment that publishing the entry makes, whether or not the file
  -- held any. It assumes that printed entries are read back and hold no line end.
  pub load_one_segment-append :
      (fname svc : Text) (ls : List Text) (e : MockEntry) (l : Text)
      → segment_name fname ≡ some svc
      → All IsClean ls
      → serde.print e ≡ some l
      → load_one_segment serde fname (unlines ls ++ l ++ 10 ∷ [])
        ≡ some (
          svc,
          add_to_segment svc e (segment_or_empty (load_one_segment serde fname (unlines ls))),
        )
  load_one_segment-append fname svc ls e l named clean printed =
      let parsed = laws.parse-print e l printed in
      let one : unlines (ls ++ l ∷ []) ≡ unlines ls ++ l ++ 10 ∷ [] = unlines-append_one ls l in
      let all_clean = All-append IsClean ls (l ∷ []) clean (laws.print_clean e l printed, tt) in
      let before = load_one_segment_named serde fname (unlines ls) svc named in
      load_one_segment_named serde fname (unlines ls ++ l ++ 10 ∷ []) svc named
      ∙ ap (λ (t : Text). segment_of serde svc (insert_lines serde [] (lines t))) (sym one)
      ∙ ap (λ (ks : List Text). segment_of serde svc (insert_lines serde [] ks))
          (lines-unlines (ls ++ l ∷ []) all_clean)
      ∙ ap (segment_of serde svc) (insert_lines-append [] ls e l parsed)
      ∙ segment_of-insert svc (insert_lines serde [] ls) e
      ∙ ap
          (λ (ks : List Text). some (
            svc,
            add_to_segment svc e
                (segment_or_empty (segment_of serde svc (insert_lines serde [] ks))),
          ))
          (sym (lines-unlines ls clean))
      ∙ ap
          (λ (o : Option (Text × MockSegment)).
            some (svc, add_to_segment svc e (segment_or_empty o)))
          (sym before)

  insert_lines-Unique :
      (m : ServiceMocks) (ls : List Text) → Unique m → Unique (insert_lines serde m ls)
  insert_lines-Unique m [] u = unfold insert_lines in u
  insert_lines-Unique m (l ∷ ls) u = elim (Option-cases (serde.parse l)) [
    | inl bad ↦ rw (insert_lines_bad serde m l ls bad) (insert_lines-Unique m ls u)
    | inr (e, good) ↦
        rw (insert_lines_good serde m l ls e good)
          (insert_lines-Unique (HashMap.insert m (key_of e) e) ls (insert-Unique m (key_of e) e u))
  ]

  -- Printing every entry of a map and inserting the lines again rebuilds the map.
  insert_lines-print_all :
      (acc m : ServiceMocks)
      → IsKeyed m
      → Unique (acc ++ m)
      → insert_lines serde acc (print_all serde (values m)) ≡ acc ++ m
  insert_lines-print_all acc [] k u = unfold insert_lines print_all in sym (append-nil acc)
  insert_lines-print_all acc ((key, e) ∷ m) (k, ks) u =
      let (l, printed) = laws.prints e in
      let parsed = laws.parse-print e l printed in
      let step = insert-Unique_middle acc key e m u in
      let next = HashMap.insert acc key e in
      ap (insert_lines serde acc) (print_all_cons serde e (values m) l printed)
      ∙ insert_lines_good serde acc l (print_all serde (values m)) e parsed
      ∙ ap (λ (k' : Key). insert_lines serde (HashMap.insert acc k' e) (print_all serde (values m)))
          (sym k)
      ∙ insert_lines-print_all next m ks (rw step u)
      ∙ step

  print_all-IsClean : (es : List MockEntry) → All IsClean (print_all serde es)
  print_all-IsClean [] = unfold print_all in tt
  print_all-IsClean (e ∷ es) =
      let (l, printed) = laws.prints e in
      rw (print_all_cons serde e es l printed) (laws.print_clean e l printed, print_all-IsClean es)

  compacted_lines :
      (key : Key) (e : MockEntry) (m : ServiceMocks)
      → compacted serde ((key, e) ∷ m) ≡ unlines (print_all serde (values ((key, e) ∷ m)))
  compacted_lines key e m =
      let (l, printed) = laws.prints e in
      let cons = print_all_cons serde e (values m) l printed in
      unfold compacted in rw cons (join-unlines l (print_all serde (values m)))

  -- A compacted map is read back as it was.
  segment_of-compacted :
      (svc : Text) (m : ServiceMocks) {s : Text × MockSegment}
      → IsKeyed m
      → Unique m
      → segment_of serde svc m ≡ some s
      → segment_of serde svc (insert_lines serde [] (lines (compacted serde m)))
        ≡ segment_of serde svc m
  segment_of-compacted svc [] k u h = cc
  segment_of-compacted svc ((key, e) ∷ m) k u h =
      let printed = print_all serde (values ((key, e) ∷ m)) in
      ap (λ (t : Text). segment_of serde svc (insert_lines serde [] (lines t)))
        (compacted_lines key e m)
      ∙ ap (λ (ls : List Text). segment_of serde svc (insert_lines serde [] ls))
          (lines-unlines printed (print_all-IsClean (values ((key, e) ∷ m))))
      ∙ ap (segment_of serde svc) (insert_lines-print_all [] ((key, e) ∷ m) k u)

  rewritten_cases :
      (written : Bool) (fname content : Text)
      → (rewritten serde written fname content ≡ content)
        ⊎ ((s : Text × MockSegment) × (load_one_segment serde fname content ≡ some s)
            × (rewritten serde written fname content
                ≡ compacted serde (insert_lines serde [] (lines content))))
  rewritten_cases written fname content =
      elim (Option-cases (load_one_segment serde fname content)) [
        | inl none_loaded ↦ inl (rewritten-none serde written fname content none_loaded)
        | inr (s, loaded) ↦ rewritten-some serde written fname content s loaded
      ]

  -- Compaction loses nothing: a file that was loaded, and rewritten or not, is loaded again to the
  -- same segment, whatever was in it. It assumes that printed entries are read back and hold no
  -- line end.
  pub load_one_segment-rewritten :
      (written : Bool) (fname content : Text)
      → load_one_segment serde fname (rewritten serde written fname content)
        ≡ load_one_segment serde fname content
  load_one_segment-rewritten written fname content = elim (rewritten_cases written fname content) [
    | inl kept ↦ ap (load_one_segment serde fname) kept
    | inr (s, loaded, small) ↦ elim (Option-cases (segment_name fname)) [
      | inl unnamed ↦ cc (load_one_segment_unnamed serde fname content unnamed)
      | inr (svc, named) ↦
          let m = insert_lines serde [] (lines content) in
          let here = load_one_segment_named serde fname content svc named in
          ap (load_one_segment serde fname) small
          ∙ load_one_segment_named serde fname (compacted serde m) svc named
          ∙ segment_of-compacted svc m (insert_lines-IsKeyed serde [] (lines content) tt)
              (insert_lines-Unique [] (lines content) tt) (sym here ∙ loaded)
          ∙ sym here
    ]
  ]
