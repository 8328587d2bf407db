-- ===== src/Storage/Log.antt =====
-- The mock log as a refinement of the library (src/io.rs, src/main.rs): each publication is one
-- insertion in memory and one line in the file of its service, and what a restart loads of the
-- files refines what is in memory.
use gostly_ai_proxy.Base.{
  ◌≡◌, refl, sym, ap, ◌∙◌, Bool, true, Option, none, some, List, [], ◌∷◌, ◌++◌, arith, Text,
  text_eq, ◌==◌, eq_iff, codes, All, All-append, Bool-eq_of_iff, Bool-cases, inl, inr, IsClean,
  lines, unlines, unlines-append_one, if◌then◌else◌,
}
use mathlib.Core.Option.{get_or, some-injective}
use mathlib.Core.List.{reverse, reverse-append, reverse-reverse}
use gostly_ai_proxy.Base.HashMap
use gostly_ai_proxy.Base.HashMap.{HashMap, get-insert, get-empty}
use gostly_ai_proxy.Types.{MockEntry}
use gostly_ai_proxy.Library.{
  MockSegment, MockLibrary, empty_segment, empty_library, add_to_segment, publish,
}
use gostly_ai_proxy.Library.Reload.{
  Serde, SerdeLaws, Dir, strip_prefix, segment_name, insert_lines, load_one_segment,
}
use gostly_ai_proxy.Library.Reload.Durable.{segment_or_empty, load_one_segment-append}
use gostly_ai_proxy.Storage.{append_line, log_name, append_to_mock_log}

strip_prefix-append : (p s : Text) → strip_prefix p (p ++ s) ≡ some s
unfolding strip_prefix
strip_prefix-append [] s = refl
strip_prefix-append (c ∷ p) s = ground (arith, strip_prefix-append p s)

abbrev pub mock_log : Text → Text
mock_log svc = log_name (codes "mock_") svc

suffix_stripped :
    (svc : Text)
    → strip_prefix (reverse (codes ".jsonl")) (reverse (svc ++ codes ".jsonl")) ≡ some (reverse svc)
suffix_stripped svc =
    ap (strip_prefix (reverse (codes ".jsonl"))) (reverse-append svc (codes ".jsonl"))
    ∙ strip_prefix-append (reverse (codes ".jsonl")) (reverse svc)

-- The name of a log gives its service back, so no two services share a log.
pub segment_name-mock_log : (svc : Text) → segment_name (mock_log svc) ≡ some svc
unfolding segment_name strip_prefix
segment_name-mock_log svc =
    ap (λ (o : Option Text). elim o [ none ↦ none | some name ↦ some (reverse name) ])
      (suffix_stripped svc)
    ∙ ap (λ (s : Text). some s) (reverse-reverse svc)

same_log : (svc svc' : Text) → (mock_log svc == mock_log svc') ≡ (svc == svc')
same_log svc svc' =
    Bool-eq_of_iff (mock_log svc == mock_log svc') (svc == svc')
      (λ same.
        let names = ap segment_name ((eq_iff (mock_log svc) (mock_log svc')).0 same) in
        (eq_iff svc svc').1 (
          some-injective svc svc'
            (sym (segment_name-mock_log svc) ∙ names ∙ segment_name-mock_log svc')))
      (λ same. (eq_iff (mock_log svc) (mock_log svc')).1 (ap mock_log ((eq_iff svc svc').0 same)))

-- The text of a service's log, empty where there is none.
abbrev pub logged : Dir → Text → Text
logged files svc = get_or (HashMap.get files (mock_log svc)) []

abbrev pub in_memory : MockLibrary → Text → MockSegment
in_memory lib svc = get_or (HashMap.get lib.segments svc) empty_segment

in_memory-publish :
    (svc : Text) (e : MockEntry) (lib : MockLibrary) (svc' : Text)
    → in_memory (publish svc e lib) svc'
      ≡ (if svc == svc' then add_to_segment svc e (in_memory lib svc) else in_memory lib svc')
unfolding publish
in_memory-publish svc e lib svc' = ground (
  arith,
  get-insert lib.segments svc svc' (add_to_segment svc e (in_memory lib svc)),
  eq_iff svc svc',
)

get_or-insert :
    (m : Dir) (k j v : Text)
    → get_or (HashMap.get (HashMap.insert m k v) j) []
      ≡ (if k == j then v else get_or (HashMap.get m j) [])
get_or-insert m k j v = ground (arith, get-insert m k j v, eq_iff k j)

logged-append :
    (svc line : Text) (files : Dir) (svc' : Text)
    → logged (append_to_mock_log true svc line files) svc'
      ≡ (if svc == svc' then logged files svc ++ line ++ 10 ∷ [] else logged files svc')
unfolding append_line
logged-append svc line files svc' =
    let longer : Text = logged files svc ++ line ++ 10 ∷ [] in
    get_or-insert files (mock_log svc) (mock_log svc') longer
    ∙ ap (λ (b : Bool). if b then longer else logged files svc') (same_log svc svc')

module _ (serde : Serde) (laws : SerdeLaws serde) where
  -- What a restart has of a service.
  abbrev pub restarted : Dir → Text → MockSegment
  restarted files svc = segment_or_empty (load_one_segment serde (mock_log svc) (logged files svc))

  -- The files refine the library: every log is made of lines, and a restart finds every service's
  -- segment as it is in memory.
  pub record IsDurable (lib : MockLibrary) (files : Dir) : Type 0 where
    pub lined : (svc : Text) → (ls : List Text) × All IsClean ls × (logged files svc ≡ unlines ls)
    pub replayed : (svc : Text) → restarted files svc ≡ in_memory lib svc

  -- One recording: the publication, and the line that its task appends.
  abbrev pub record_entry : MockLibrary × Dir → Text × MockEntry → MockLibrary × Dir
  record_entry (lib, files) (svc, e) =
      (publish svc e lib, append_to_mock_log true svc (get_or (serde.print e) []) files)

  abbrev pub record_entries : MockLibrary × Dir → List (Text × MockEntry) → MockLibrary × Dir
  record_entries s [] = s
  record_entries s (e ∷ es) = record_entries (record_entry s e) es

  restarted-append :
      (svc : Text) (e : MockEntry) (l : Text) (lib : MockLibrary) (files : Dir)
      → serde.print e ≡ some l
      → IsDurable lib files
      → segment_or_empty (load_one_segment serde (mock_log svc) (logged files svc ++ l ++ 10 ∷ []))
        ≡ add_to_segment svc e (in_memory lib svc)
  restarted-append svc e l lib files printed durable =
      let (ls, clean, text) = durable.lined svc in
      let at : (t : Text) → Type 0 = λ t.
        segment_or_empty (load_one_segment serde (mock_log svc) (t ++ l ++ 10 ∷ []))
        ≡ add_to_segment svc e (segment_or_empty (load_one_segment serde (mock_log svc) t)) in
      let appended : at (unlines ls) = ap segment_or_empty (
        load_one_segment-append serde laws (mock_log svc) svc ls e l (segment_name-mock_log svc)
          clean printed) in
      let here : at (logged files svc) = rw text appended in
      here ∙ ap (add_to_segment svc e) (durable.replayed svc)

  -- A log after a line: the service's own is one line longer, the others are as they were.
  lined-append :
      (svc : Text) (e : MockEntry) (l : Text) (files : Dir) (svc' : Text)
      → serde.print e ≡ some l
      → ((s : Text) → (ls : List Text) × All IsClean ls × (logged files s ≡ unlines ls))
      → (ls : List Text) × All IsClean ls
        × (logged (append_to_mock_log true svc l files) svc' ≡ unlines ls)
  lined-append svc e l files svc' printed lined =
      let longer : Text = logged files svc ++ l ++ 10 ∷ [] in
      let choice : Bool → Text = λ b. if b then longer else logged files svc' in
      let step = logged-append svc l files svc' in
      elim (Bool-cases (svc == svc')) [
        | inl same ↦
            let (ls, clean, text) = lined svc in
            (
              ls ++ l ∷ [],
              All-append IsClean ls (l ∷ []) clean (laws.print_clean e l printed, tt),
              step
                  ∙ ap choice same
                  ∙ ap (λ (t : Text). t ++ l ++ 10 ∷ []) text
                  ∙ sym (unlines-append_one ls l),
            )
        | inr other ↦
            let (ls, clean, text) = lined svc' in (ls, clean, step ∙ ap choice other ∙ text)
      ]

  replayed-append :
      (svc : Text) (e : MockEntry) (l : Text) (lib : MockLibrary) (files : Dir) (svc' : Text)
      → serde.print e ≡ some l
      → IsDurable lib files
      → restarted (append_to_mock_log true svc l files) svc' ≡ in_memory (publish svc e lib) svc'
  replayed-append svc e l lib files svc' printed durable =
      let longer : Text = logged files svc ++ l ++ 10 ∷ [] in
      let load : Text → MockSegment =
        λ t. segment_or_empty (load_one_segment serde (mock_log svc') t) in
      let choice : Bool → Text = λ b. if b then longer else logged files svc' in
      let added : Bool → MockSegment =
        λ b. if b then add_to_segment svc e (in_memory lib svc) else in_memory lib svc' in
      let file = ap load (logged-append svc l files svc') in
      let memory = in_memory-publish svc e lib svc' in
      elim (Bool-cases (svc == svc')) [
        | inl same ↦
            let named : svc ≡ svc' = (eq_iff svc svc').0 same in
            file
            ∙ ap (λ (b : Bool). load (choice b)) same
            ∙ ap (λ (n : Text). segment_or_empty (load_one_segment serde (mock_log n) longer))
                (sym named)
            ∙ restarted-append svc e l lib files printed durable
            ∙ sym (memory ∙ ap added same)
        | inr other ↦
            file
            ∙ ap (λ (b : Bool). load (choice b)) other
            ∙ durable.replayed svc'
            ∙ sym (memory ∙ ap added other)
      ]

  record_line-IsDurable :
      (svc : Text) (e : MockEntry) (l : Text) (lib : MockLibrary) (files : Dir)
      → serde.print e ≡ some l
      → IsDurable lib files
      → IsDurable (publish svc e lib) (append_to_mock_log true svc l files)
  record_line-IsDurable svc e l lib files printed durable = record {
    lined = λ svc'. lined-append svc e l files svc' printed durable.lined;
    replayed = λ svc'. replayed-append svc e l lib files svc' printed durable;
  }

  record_entry-IsDurable :
      (s : MockLibrary × Dir) (svc : Text) (e : MockEntry)
      → IsDurable s.0 s.1
      → IsDurable (record_entry s (svc, e)).0 (record_entry s (svc, e)).1
  record_entry-IsDurable (lib, files) svc e durable =
      let (l, printed) = laws.prints e in
      let line : get_or (serde.print e) [] ≡ l = rw printed refl in
      rw line (record_line-IsDurable svc e l lib files printed durable)

  -- The logs refine the library. From a library and files of which a restart finds every service's
  -- segment as it is in memory, after any recordings for any services in any order, each one
  -- published and its line appended before the next, a restart still finds every service's segment
  -- as it is in memory. It assumes that printed entries are read back and hold no line end.
  pub record_entries-IsDurable :
      (es : List (Text × MockEntry)) (s : MockLibrary × Dir)
      → IsDurable s.0 s.1
      → IsDurable (record_entries s es).0 (record_entries s es).1
  record_entries-IsDurable [] s durable = durable
  record_entries-IsDurable ((svc, e) ∷ es) s durable =
      record_entries-IsDurable es (record_entry s (svc, e)) (record_entry-IsDurable s svc e durable)

  restarted-empty : (svc : Text) → restarted [] svc ≡ empty_segment
  unfolding load_one_segment lines insert_lines HashMap.get
  restarted-empty svc = rw (segment_name-mock_log svc, load_one_segment) refl

  -- A proxy that starts with nothing.
  pub empty-IsDurable : IsDurable empty_library []
  unfolding HashMap.get unlines
  empty-IsDurable = record { lined = λ svc. ([], tt, refl); replayed = λ svc. restarted-empty svc }
