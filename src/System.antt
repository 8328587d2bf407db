-- ===== src/System.antt =====
-- The running proxy (src/main.rs, src/io.rs): the state, the tasks that were spawned and have not run,
-- and the files. An event is one request, one administrative call, one task or one reload; events come
-- in any order, and the tasks run in any order too.
pub mod Reachable
use gostly_ai_proxy.Base.{
  ℕ, zero, suc, Bool, true, false, Option, none, some, List, [], ◌∷◌, ◌++◌, Text,
}
use gostly_ai_proxy.Types.{Mode, MockEntry, MockSequence}
use gostly_ai_proxy.Library.Reload.{Dir}
use gostly_ai_proxy.Paths.{UpstreamRoute}
use gostly_ai_proxy.Chaos.Config.{ChaosConfig}
use gostly_ai_proxy.State.{
  Platform, AppState, Request, Clock, Draws, Task, append_to_mock_log, append_to_traffic_log,
  append_wide_event, capture,
}
use gostly_ai_proxy.Upstream.{UpstreamRequest, Sent}
use gostly_ai_proxy.Learn.{run_task}
use gostly_ai_proxy.Handler.{proxy_handler}
use gostly_ai_proxy.Storage
use gostly_ai_proxy.Admin.{
  handle_set_mode, handle_create_mock, handle_reload_mocks, watch_file, handle_set_config,
  handle_create_sequence, handle_reset_sequence, handle_delete_sequence, handle_set_upstreams,
}

-- `files` is the directory of mocks; the traffic log and the wide events are not read again.
pub record System (F : Type 0) : Type 0 where
  pub app : AppState F
  pub pending : List Task
  pub files : Dir
  pub mode_file : Option Text

pub data Event (F : Type 0) : Type 0 where
  request : (UpstreamRequest → Sent) → Request → Clock → Draws F → Event F
  -- The pending task of that index runs at that time; `true` where its write succeeds.
  run : ℕ → ℕ → Bool → Event F
  set_mode : Bool → Mode → Event F
  create_mock : MockEntry → Event F
  reload_mocks : Event F
  file_changed : Text → Event F
  set_config : Option ℕ → Option Text → Event F
  create_sequence : MockSequence → Event F
  reset_sequence : Text → Event F
  delete_sequence : Text → Event F
  set_upstreams : List (UpstreamRoute (ChaosConfig F)) → Event F
  -- Someone else writes the directory.
  edited : Dir → Event F

-- The task of an index, and the others.
unfoldable pub take_nth : ℕ → List Task → Option (Task × List Task)
take_nth i [] = none
take_nth zero (t ∷ ts) = some (t, ts)
take_nth (suc i) (t ∷ ts) = elim (take_nth i ts) [ none ↦ none | some (u, us) ↦ some (u, t ∷ us) ]

-- What a task does to the directory of mocks.
abbrev write_task : Bool → Task → Dir → Dir
write_task written (append_to_mock_log svc line) files =
    Storage.append_to_mock_log written svc line files
write_task written (append_to_traffic_log svc line) files = files
write_task written (append_wide_event event) files = files
write_task written (capture svc collection body content_type status) files = files

module _ {F : Type 0} (p : Platform F) where
  abbrev run_taken : ℕ → Bool → System F → Option (Task × List Task) → System F
  run_taken now written s none = s
  run_taken now written s (some (t, rest)) = record s {
    app = run_task p now s.app t;
    pending = rest;
    files = write_task written t s.files;
  }

  unfoldable pub step : System F → Event F → System F
  unfolding proxy_handler handle_set_mode handle_create_mock handle_reload_mocks handle_set_config
      handle_create_sequence handle_reset_sequence handle_delete_sequence handle_set_upstreams
      take_nth run_task
  step s (request send req clock draws) =
      let (outcome, app, tasks) = proxy_handler p send s.app req clock draws in
      record s { app = app; pending = s.pending ++ tasks }
  step s (run i now written) = run_taken now written s (take_nth i s.pending)
  step s (set_mode written m) =
      let (app, file) = handle_set_mode written s.mode_file s.app m in
      record s { app = app; mode_file = file }
  step s (create_mock entry) =
      let (app, tasks) = handle_create_mock p s.app entry in
      record s { app = app; pending = s.pending ++ tasks }
  step s reload_mocks = record s { app = (handle_reload_mocks p s.files s.app).0 }
  step s (file_changed fname) = record s { app = watch_file p s.files fname s.app }
  step s (set_config status body) = record s { app = handle_set_config s.app status body }
  step s (create_sequence seq) = record s { app = handle_create_sequence s.app seq }
  step s (reset_sequence id) = record s { app = handle_reset_sequence s.app id }
  step s (delete_sequence id) = record s { app = handle_delete_sequence s.app id }
  step s (set_upstreams upstreams) = record s { app = (handle_set_upstreams s.app upstreams).0 }
  step s (edited files) = record s { files = files }

  -- The states that some sequence of events leads to.
  pub data Reach (s : System F) : System F → Type 0 where
    start : Reach s s
    after : {t : System F} (e : Event F) → Reach s t → Reach s (step t e)
