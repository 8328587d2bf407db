-- ===== src/Library/Reload.antt =====
-- Segments on disk (src/io.rs): loading a file, its compaction, the full and the one-file reload.
-- `serde_json` is a crate: it enters as the record `Serde`. A directory is a map from file names to
-- contents; unreadable files are those that are not in it. The temporary file of a compaction is
-- left out: its name does not end in `.jsonl`, so no reload reads it.
pub mod Durable
pub mod Isolated
pub mod Segments
pub mod Coherent
use gostly_ai_proxy.Base.{
  ℕ, ◌≡◌, Bool, true, Option, none, some, List, [], ◌∷◌, ◌++◌, Text, text_eq, triple_eq, codes,
  length, join, lines, unlines, nat_beq, IsClean, if◌then◌else◌,
}
use mathlib.Core.List.{reverse}
use gostly_ai_proxy.Base.HashMap
use gostly_ai_proxy.Base.HashMap.{HashMap, values}
use gostly_ai_proxy.Types.{MockEntry}
use gostly_ai_proxy.Library.{
  ServiceMocks, MockSegment, MockLibrary, empty_library, key_of, total_count, service_count,
}

pub record Serde : Type 0 where
  -- `serde_json::from_str::<MockEntry>(line).ok()` and `serde_json::to_string(entry).ok()`.
  pub parse : Text → Option MockEntry
  pub print : MockEntry → Option Text

-- What the log relies on: an entry is read back from its line, and a line of JSON has no line end
-- in it, as control characters are escaped.
pub record SerdeLaws (serde : Serde) : Type 0 where
  pub parse-print : (e : MockEntry) (l : Text) → serde.print e ≡ some l → serde.parse l ≡ some e
  pub prints : (e : MockEntry) → (l : Text) × (serde.print e ≡ some l)
  pub print_clean : (e : MockEntry) (l : Text) → serde.print e ≡ some l → IsClean l

abbrev pub Dir : Type 0
Dir = HashMap Text Text

unfoldable pub strip_prefix : Text → Text → Option Text
strip_prefix [] s = some s
strip_prefix (x ∷ p) [] = none
strip_prefix (x ∷ p) (y ∷ s) = if nat_beq y x then strip_prefix p s else none

-- The part of `mock_{svc_id}.jsonl` between the prefix and the suffix, which do not overlap.
unfoldable pub segment_name : Text → Option Text
unfolding strip_prefix
segment_name fname = elim (strip_prefix (codes "mock_") fname) [
  | none ↦ none
  | some rest ↦ elim (strip_prefix (reverse (codes ".jsonl")) (reverse rest)) [
    | none ↦ none
    | some name ↦ some (reverse name)
  ]
]

module _ (serde : Serde) where
  -- The loop over `content.lines()`.
  unfoldable pub insert_lines : ServiceMocks → List Text → ServiceMocks
  insert_lines m [] = m
  insert_lines m (l ∷ ls) = elim (serde.parse l) [
    | none ↦ insert_lines m ls
    | some e ↦ insert_lines (HashMap.insert m (key_of e) e) ls
  ]

  unfoldable pub print_all : List MockEntry → List Text
  print_all [] = []
  print_all (e ∷ es) = elim (serde.print e) [ none ↦ print_all es | some l ↦ l ∷ print_all es ]

  -- `….join("\n") + "\n"`.
  unfoldable pub compacted : ServiceMocks → Text
  unfolding join print_all
  compacted m = join 10 (print_all (values m)) ++ 10 ∷ []

  abbrev segment_of : Text → ServiceMocks → Option (Text × MockSegment)
  segment_of svc_id [] = none
  segment_of svc_id (b ∷ m) = some (svc_id, record { services = HashMap.insert [] svc_id (b ∷ m) })

  -- `None` too where the name is not that of a mock file.
  unfoldable pub load_one_segment : Text → Text → Option (Text × MockSegment)
  unfolding segment_name insert_lines lines
  load_one_segment fname content = elim (segment_name fname) [
    | none ↦ none
    | some svc_id ↦ segment_of svc_id (insert_lines [] (lines content))
  ]

  -- What a load leaves on disk: the compacted file, where both the write and the rename succeed.
  unfoldable pub rewritten : Bool → Text → Text → Text
  unfolding compacted
  rewritten written fname content = elim (load_one_segment fname content) [
    | none ↦ content
    | some _ ↦ if written then compacted (insert_lines [] (lines content)) else content
  ]

  -- The loop over the directory's entries.
  unfoldable pub load_entries : Dir → MockLibrary → MockLibrary
  load_entries [] lib = lib
  load_entries ((fname, content) ∷ files) lib = elim (load_one_segment fname content) [
    | none ↦ load_entries files lib
    | some (svc_id, segment) ↦
        load_entries files (record { segments = HashMap.insert lib.segments svc_id segment })
  ]

  unfoldable pub load_all_service_mocks : Dir → MockLibrary
  unfolding load_entries load_one_segment
  load_all_service_mocks files = load_entries files empty_library

  abbrev load_file : Dir → Text → Option (Text × MockSegment)
  load_file files fname = elim (HashMap.get files fname) [
    | none ↦ none
    | some content ↦ load_one_segment fname content
  ]

  -- The library that the watcher stores after one file has changed.
  unfoldable pub reload_one_file : Dir → Text → MockLibrary → MockLibrary
  unfolding load_one_segment
  reload_one_file files fname current = elim (segment_name fname) [
    | none ↦ current
    | some svc_id ↦ elim (load_file files fname) [
      | none ↦ record { segments = HashMap.remove current.segments svc_id }
      | some (_, segment) ↦ record { segments = HashMap.insert current.segments svc_id segment }
    ]
  ]

  -- The new library, with the counts that are logged.
  unfoldable pub reload_full : Dir → MockLibrary × ℕ × ℕ
  unfolding load_all_service_mocks total_count service_count
  reload_full files =
      let library = load_all_service_mocks files in
      (library, total_count library, service_count library)
