-- ===== src/Storage.antt =====
-- The small files of src/io.rs: the sequence file, the mode file, and the lines appended to the logs.
-- A file that is not there is `none`; whether a write succeeds is an argument. `serde_json` enters as
-- the records `SequenceSerde` and `ModeSerde`.
pub mod RoundTrip
pub mod Log
use gostly_ai_proxy.Base.{
  ℕ, ◌≡◌, Bool, true, false, Option, none, some, List, [], ◌∷◌, ◌++◌, Text, text_eq, triple_eq,
  ◌==◌, codes, join, lines, trim, IsClean, if◌then◌else◌,
}
use mathlib.Core.Option.{get_or}
use gostly_ai_proxy.Base.HashMap
use gostly_ai_proxy.Types.{
  Mode, learn, mock, passthrough, transitioning, MockEntry, MockSequence, global_tenant,
}
use gostly_ai_proxy.Library.{MockSegment, MockLibrary, ServiceMocks, key_of, service_key}
use gostly_ai_proxy.Library.Reload.{Dir}
use gostly_ai_proxy.Base.HashMap.{HashMap}

pub record SequenceSerde : Type 0 where
  pub parse : Text → Option MockSequence
  pub print : MockSequence → Option Text

-- A sequence is read back from its line, which has no line end in it.
pub record SequenceLaws (serde : SequenceSerde) : Type 0 where
  pub parse-print : (s : MockSequence) (l : Text) → serde.print s ≡ some l → serde.parse l ≡ some s
  pub prints : (s : MockSequence) → (l : Text) × (serde.print s ≡ some l)
  pub print_clean : (s : MockSequence) (l : Text) → serde.print s ≡ some l → IsClean l

-- `filter_map(|l| serde_json::from_str(l).ok())`.
unfoldable pub parse_all : SequenceSerde → List Text → List MockSequence
parse_all serde [] = []
parse_all serde (l ∷ ls) = elim (serde.parse l) [
  | none ↦ parse_all serde ls
  | some s ↦ s ∷ parse_all serde ls
]

unfoldable pub print_all : SequenceSerde → List MockSequence → List Text
print_all serde [] = []
print_all serde (s ∷ seqs) = elim (serde.print s) [
  | none ↦ print_all serde seqs
  | some l ↦ l ∷ print_all serde seqs
]

unfoldable pub load_sequences : SequenceSerde → Option Text → List MockSequence
unfolding parse_all lines
load_sequences serde none = []
load_sequences serde (some content) = parse_all serde (lines content)

abbrev pub line_end : List MockSequence → Text
line_end [] = []
line_end (s ∷ seqs) = 10 ∷ []

-- The file after it, where the write and the rename succeed.
unfoldable pub save_sequences : SequenceSerde → Bool → Option Text → List MockSequence → Option Text
unfolding print_all join
save_sequences serde written file seqs =
    if written then some (join 10 (print_all serde seqs) ++ line_end seqs) else file

-- `serde_json::from_str::<Mode>(text).ok()`, with what `rename_all = "UPPERCASE"` says.
pub record ModeSerde : Type 0 where
  pub parse : Text → Option Mode
  pub parse_learn : parse (codes "\"LEARN\"") ≡ some learn
  pub parse_mock : parse (codes "\"MOCK\"") ≡ some mock
  pub parse_passthrough : parse (codes "\"PASSTHROUGH\"") ≡ some passthrough

unfoldable pub read_mode_from_file : ModeSerde → Option Text → Option Mode
unfolding trim
read_mode_from_file serde none = none
read_mode_from_file serde (some c) = serde.parse (b'"' ∷ trim c ++ b'"' ∷ [])

-- The time of transition is not written.
abbrev mode_label : Mode → Option Text
mode_label learn = some (codes "LEARN")
mode_label mock = some (codes "MOCK")
mode_label passthrough = some (codes "PASSTHROUGH")
mode_label transitioning = none

unfoldable pub write_mode_to_file : Bool → Option Text → Mode → Option Text
write_mode_to_file written file m = elim (mode_label m) [
  | none ↦ file
  | some label ↦ if written then some label else file
]

abbrev mode_of_env : Text → Option Mode
mode_of_env v =
    if v == codes "MOCK"
    then some mock
    else if v == codes "PASSTHROUGH"
    then some passthrough
    else if v == codes "LEARN"
    then some learn
    else none

abbrev or_env : Text → Option Mode → Mode
or_env env none = get_or (mode_of_env env) learn
or_env env (some m) = m

-- The mode of start-up; `env` is the variable `INITIAL_MODE` in upper case, or empty.
unfoldable pub initial_mode : ModeSerde → Option Text → Text → Mode
unfolding read_mode_from_file
initial_mode serde file env = or_env env (read_mode_from_file serde file)

-- `{prefix}{service_id}.jsonl`.
abbrev pub log_name : Text → Text → Text
log_name prefix service_id = prefix ++ service_id ++ codes ".jsonl"

-- A line and a line end at the end of the file, which is created where it is not there. A failed
-- open or write is counted, and loses the line.
unfoldable pub append_line : Bool → Text → Text → Dir → Dir
append_line written name line files =
    if written
    then HashMap.insert files name (get_or (HashMap.get files name) [] ++ line ++ 10 ∷ [])
    else files

abbrev pub append_to_mock_log : Bool → Text → Text → Dir → Dir
append_to_mock_log written service_id line files =
    append_line written (log_name (codes "mock_") service_id) line files

abbrev pub append_to_traffic_log : Bool → Text → Text → Dir → Dir
append_to_traffic_log written service_id line files =
    append_line written (log_name (codes "traffic_") service_id) line files

unfoldable pub insert_entries :
    HashMap Text ServiceMocks → List MockEntry → HashMap Text ServiceMocks
insert_entries m [] = m
insert_entries m (e ∷ es) =
    let svc = service_key e.service_id in
    insert_entries
      (HashMap.insert m svc (HashMap.insert (get_or (HashMap.get m svc) []) (key_of e) e)) es

-- One segment named `_global`, with a map for each service.
unfoldable pub library_from_entries : List MockEntry → MockLibrary
unfolding insert_entries
library_from_entries entries = record {
  segments = (global_tenant, record { services = insert_entries [] entries }) ∷ [];
}

pub data ReloadStrategy : Type 0 where
  fs_watch signal poll http_admin : ReloadStrategy

-- `ReloadStrategy::from_env`, of the variable `MOCK_RELOAD_STRATEGY`.
unfoldable pub from_env : Option Text → ReloadStrategy
from_env none = fs_watch
from_env (some v) =
    if v == codes "signal"
    then signal
    else if v == codes "poll"
    then poll
    else if v == codes "http_admin"
    then http_admin
    else fs_watch
