-- ===== src/Admin.antt =====
-- The handlers under `/ghost` and `/health` of src/main.rs on the state. A handler that answers JSON
-- gives the values that it puts there; log lines and metrics are left out.
use gostly_ai_proxy.Base.{
  ℕ, ◌+◌, Bool, true, false, Option, none, some, List, [], ◌∷◌, Text, text_eq, codes, length,
  if◌then◌else◌,
}
use mathlib.Core.Option.{get_or}
use gostly_ai_proxy.Types.{
  Mode, learn, mock, passthrough, transitioning, MockEntry, MockRequest, MockSequence,
  RuntimeConfig,
}
use gostly_ai_proxy.Library.{all_entries, total_count, service_count, service_key}
use gostly_ai_proxy.Library
use gostly_ai_proxy.Library.Reload.{Dir, reload_full, reload_one_file}
use gostly_ai_proxy.Sequence
use gostly_ai_proxy.Paths.{UpstreamRoute}
use gostly_ai_proxy.Chaos.Config.{ChaosConfig, ChaosModel, uniform, markov, settings}
use gostly_ai_proxy.State.{Platform, AppState, Task, append_to_mock_log}
use gostly_ai_proxy.Storage.{write_mode_to_file}
use gostly_ai_proxy.Learn.{line_of}

-- `RuntimeConfig::new`.
abbrev pub default_config : RuntimeConfig
default_config = record {
  unmatched_status = 404;
  unmatched_body =
      codes
        "{\"error\":\"no mock found\",\"hint\":\"switch to LEARN mode and replay the request, or import a recording\"}";
}

-- `{:?}` of a mode.
abbrev pub mode_name : Mode → Text
mode_name learn = codes "Learn"
mode_name mock = codes "Mock"
mode_name passthrough = codes "Passthrough"
mode_name transitioning = codes "Transitioning"

abbrev is_markov : ChaosModel → Bool
is_markov uniform = false
is_markov markov = true

module _ {F : Type 0} where
  -- The mode, and the counts of mocks and services.
  unfoldable pub handle_health : AppState F → Text × ℕ × ℕ
  unfolding total_count service_count
  handle_health st = (mode_name st.mode, total_count st.mock.library, service_count st.mock.library)

  -- The state, and the mode file; the time of transition is not persisted.
  unfoldable pub handle_set_mode : Bool → Option Text → AppState F → Mode → AppState F × Option Text
  unfolding write_mode_to_file
  handle_set_mode written file st m = (record st { mode = m }, write_mode_to_file written file m)

  unfoldable pub handle_list_mocks : AppState F → Option Text → ℕ × List MockEntry
  unfolding all_entries
  handle_list_mocks st tenant = let all = all_entries st.mock.library tenant in (length all, all)

  unfoldable pub handle_create_mock : Platform F → AppState F → MockEntry → AppState F × List Task
  unfolding Library.handle_create_mock
  handle_create_mock p st entry =
      let (lib, entry') = Library.handle_create_mock entry st.mock.library in
      (
        record st { mock = record st.mock { library = lib } },
        append_to_mock_log (service_key entry'.service_id) (line_of p entry') ∷ [],
      )

  -- Both reload routes, with the counts that they answer.
  unfoldable pub handle_reload_mocks : Platform F → Dir → AppState F → AppState F × ℕ × ℕ
  unfolding reload_full
  handle_reload_mocks p files st =
      let (lib, count, services) = reload_full p.entries files in
      (record st { mock = record st.mock { library = lib } }, count, services)

  -- What a watcher does on the event of one file.
  abbrev pub watch_file : Platform F → Dir → Text → AppState F → AppState F
  watch_file p files fname st = record st {
    mock = record st.mock { library = reload_one_file p.entries files fname st.mock.library };
  }

  unfoldable pub handle_list_unmatched : AppState F → ℕ × List MockRequest
  handle_list_unmatched st = (length st.mock.unmatched, st.mock.unmatched)

  unfoldable pub handle_set_config : AppState F → Option ℕ → Option Text → AppState F
  handle_set_config st unmatched_status unmatched_body = record st {
    mock = record st.mock {
      runtime_config = record {
        unmatched_status = get_or unmatched_status st.mock.runtime_config.unmatched_status;
        unmatched_body = get_or unmatched_body st.mock.runtime_config.unmatched_body;
      };
    };
  }

  abbrev pub with_sequences : AppState F → Sequence.SequenceState → AppState F
  with_sequences st (seqs, counters) = record st {
    mock = record st.mock { sequences = seqs; sequence_counters = counters };
  }

  abbrev pub sequences_of : AppState F → Sequence.SequenceState
  sequences_of st = (st.mock.sequences, st.mock.sequence_counters)

  -- The sequence handlers, whose tasks save the list that is then in the state.
  unfoldable pub handle_create_sequence : AppState F → MockSequence → AppState F
  unfolding Sequence.handle_create_sequence
  handle_create_sequence st seq =
      with_sequences st (Sequence.handle_create_sequence seq (sequences_of st))

  unfoldable pub handle_reset_sequence : AppState F → Text → AppState F
  unfolding Sequence.handle_reset_sequence
  handle_reset_sequence st id =
      with_sequences st (Sequence.handle_reset_sequence id (sequences_of st))

  unfoldable pub handle_delete_sequence : AppState F → Text → AppState F
  unfolding Sequence.handle_delete_sequence
  handle_delete_sequence st id =
      with_sequences st (Sequence.handle_delete_sequence id (sequences_of st))

  abbrev has_markov : Option (ChaosConfig F) → Bool
  has_markov none = false
  has_markov (some c) = is_markov (settings c).chaos_model

  abbrev markov_count : List (UpstreamRoute (ChaosConfig F)) → ℕ
  markov_count [] = 0
  markov_count (u ∷ us) = (if has_markov u.chaos_config then 1 else 0) + markov_count us

  -- The state, with the count that is answered and the one that is logged.
  unfoldable pub handle_set_upstreams :
      AppState F → List (UpstreamRoute (ChaosConfig F)) → AppState F × ℕ × ℕ
  handle_set_upstreams st upstreams =
      (record st { upstreams = upstreams }, length upstreams, markov_count upstreams)
