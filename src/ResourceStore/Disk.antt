-- ===== src/ResourceStore/Disk.antt =====
-- The log of resources on disk (src/resource_store.rs): the line that a capture or a transition
-- appends, and the replay and the compaction of start-up. `serde_json` enters as `ResourceSerde`.
pub mod Log
pub mod Recovery
pub mod Restart
use gostly_ai_proxy.Base.{
  ℕ, zero, suc, ◌<◌, ◌^◌, ◌≡◌, Bool, true, false, not, Option, none, some, List, [], ◌∷◌, ◌++◌,
  Text, text_eq, pair_eq, ◌==◌, codes, ltb, length, retain, join, lines, trim, starts_with, IsClean,
  if◌then◌else◌,
}
use mathlib.Core.Option.{get_or}
use mathlib.Core.List.{reverse}
use gostly_ai_proxy.Base.HashMap
use gostly_ai_proxy.Base.HashMap.{HashMap, values}
use gostly_ai_proxy.Json.Exact.{IsExact}
use gostly_ai_proxy.Library.Reload.{Dir, strip_prefix}
use gostly_ai_proxy.ResourceStore.{ResourceKey, ResourceState, ResourceStore, ServiceResources}

pub record ResourceSerde : Type 0 where
  pub parse : Text → Option ResourceState
  pub print : ResourceState → Option Text

-- A line that is empty after `trim` is skipped.
unfoldable pub is_blank : Text → Bool
unfolding trim
is_blank l = trim l == []

-- What is written and read back as it is: a body of integers, a level less deep than a line may be,
-- a status that fits a u16, and times, in nanoseconds since the epoch, before the year 10000, after
-- which RFC 3339 has no form.
abbrev pub IsStorable : ResourceState → Type 0
IsStorable s =
    IsExact 126 s.body
    × (s.status < 2 ^ 16)
    × (s.created_at < 253402300800000000000)
    × (s.updated_at < 253402300800000000000)

-- What the log relies on: such a resource is read back from its line; the line of any resource is not
-- blank and has no line end in it, as control characters are escaped.
pub record ResourceLaws (serde : ResourceSerde) : Type 0 where
  pub parse-print :
      (s : ResourceState) (l : Text)
      → IsStorable s
      → serde.print s ≡ some l
      → serde.parse l ≡ some s
  pub prints : (s : ResourceState) → IsStorable s → (l : Text) × (serde.print s ≡ some l)
  pub print_clean : (s : ResourceState) (l : Text) → serde.print s ≡ some l → IsClean l
  pub print_visible : (s : ResourceState) (l : Text) → serde.print s ≡ some l → is_blank l ≡ false

abbrev pub state_key : ResourceState → ResourceKey
state_key rs = (rs.collection, rs.id)

abbrev pub suffix : Text
suffix = codes ".jsonl"

-- `trim_end_matches(".jsonl")` on the reversed name: every suffix goes. Each one that goes makes
-- the name shorter, so that the name's length is enough rounds.
unfoldable pub trim_suffixes : ℕ → Text → Text
unfolding strip_prefix
trim_suffixes zero name = name
trim_suffixes (suc n) name = elim (strip_prefix (reverse suffix) name) [
  | none ↦ name
  | some shorter ↦ trim_suffixes n shorter
]

unfoldable pub service_of_file : Text → Option Text
unfolding trim_suffixes starts_with
service_of_file fname =
    if starts_with (reverse fname) (reverse suffix)
    then some (reverse (trim_suffixes (length fname) (reverse fname)))
    else none

-- `{service_id}.jsonl`.
abbrev pub log_of : Text → Text
log_of service_id = service_id ++ suffix

module _ (serde : ResourceSerde) where
  -- The loop over the lines.
  unfoldable pub replay_lines : ServiceResources → List Text → ServiceResources
  replay_lines m [] = m
  replay_lines m (l ∷ ls) = elim (is_blank l) [
    | true ↦ replay_lines m ls
    | false ↦ elim (serde.parse l) [
      | none ↦ replay_lines m ls
      | some rs ↦ replay_lines (HashMap.insert m (state_key rs) rs) ls
    ]
  ]

  unfoldable pub bucket_of : Text → ServiceResources
  unfolding replay_lines lines
  bucket_of content = replay_lines [] (lines content)

  abbrev raw_lines : Text → ℕ
  raw_lines content = length (retain (λ l. not (is_blank l)) (lines content))

  abbrev print_states : List ResourceState → List Text
  print_states [] = []
  print_states (s ∷ states) =
      let rest = print_states states in elim (serde.print s) [ none ↦ rest | some l ↦ l ∷ rest ]

  abbrev compacted_bucket : ServiceResources → Text
  compacted_bucket m = join 10 (print_states (values m)) ++ 10 ∷ []

  abbrev rewrite_bucket : Bool → Text → ServiceResources → Text
  rewrite_bucket written content [] = content
  rewrite_bucket written content (b ∷ m) =
      if ltb (length (b ∷ m)) (raw_lines content)
      then if written then compacted_bucket (b ∷ m) else content
      else content

  -- What the load leaves of a file: the compacted one where lines could be dropped and the write
  -- and the rename succeed.
  unfoldable pub rewritten : Bool → Text → Text
  unfolding bucket_of lines join is_blank
  rewritten written content = rewrite_bucket written content (bucket_of content)

  abbrev pub load_bucket :
      Text → ServiceResources → HashMap Text ServiceResources → HashMap Text ServiceResources
  load_bucket svc_id [] map = map
  load_bucket svc_id (b ∷ m) map = HashMap.insert map svc_id (b ∷ m)

  -- The loop over the directory.
  unfoldable pub load_files : Dir → HashMap Text ServiceResources → HashMap Text ServiceResources
  unfolding service_of_file bucket_of
  load_files [] map = map
  load_files ((fname, content) ∷ files) map = elim (service_of_file fname) [
    | none ↦ load_files files map
    | some svc_id ↦ load_files files (load_bucket svc_id (bucket_of content) map)
  ]

  unfoldable pub load_from_disk : Dir → ResourceStore → ResourceStore
  unfolding load_files
  load_from_disk files store =
      if store.data_dir == []
      then store
      else record store { by_service = load_files files store.by_service }

  -- The file is created before the resource is serialised. A write that fails is counted and loses
  -- the line.
  unfoldable pub persist_jsonl : Bool → Text → ResourceState → Dir → Dir
  persist_jsonl written service_id state files =
      let content = get_or (HashMap.get files (log_of service_id)) [] in
      if written
      then HashMap.insert files (log_of service_id)
          (elim (serde.print state) [ none ↦ content | some line ↦ content ++ line ++ 10 ∷ [] ])
      else files
