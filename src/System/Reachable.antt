-- ===== src/System/Reachable.antt =====
-- What holds of every state that the proxy can get to, whatever the order of requests, calls, tasks
-- and reloads.
use gostly_ai_proxy.Base.{ℕ, Bool, Option, none, some, List}
use gostly_ai_proxy.Types.{MockEntry}
use gostly_ai_proxy.Statechart.{StatechartRegistry}
use gostly_ai_proxy.Library.{service_key, with_tenant, publish}
use gostly_ai_proxy.Library
use gostly_ai_proxy.Library.Owned.{IsOwned, publish-IsOwned}
use gostly_ai_proxy.Library.Reload.{reload_full}
use gostly_ai_proxy.Library.Reload.Isolated.{
  load_all_service_mocks-IsOwned, reload_one_file-IsOwned,
}
use gostly_ai_proxy.State.{Platform, Task}
use gostly_ai_proxy.Handler.Sound.{IsSound, proxy_handler-IsSound, run_task-IsSound}
use gostly_ai_proxy.Admin.{
  handle_set_mode, handle_create_mock, handle_reload_mocks, handle_set_config,
  handle_create_sequence, handle_reset_sequence, handle_delete_sequence, handle_set_upstreams,
}
use gostly_ai_proxy.System.{
  System, Event, request, run, set_mode, create_mock, reload_mocks, file_changed, set_config,
  create_sequence, reset_sequence, delete_sequence, set_upstreams, edited, take_nth, run_taken,
  step, Reach, start, after,
}

handle_create_mock-IsOwned :
    (entry : MockEntry) (lib : Library.MockLibrary)
    → IsOwned lib
    → IsOwned (Library.handle_create_mock entry lib).0
unfolding Library.handle_create_mock
handle_create_mock-IsOwned entry lib owned =
    let entry' = with_tenant entry in
    publish-IsOwned (service_key entry'.service_id) entry' lib owned

module _ {F : Type 0} (p : Platform F) (reg : StatechartRegistry) where
  run_taken-IsSound :
      (now : ℕ) (written : Bool) (s : System F) (o : Option (Task × List Task))
      → IsSound p reg s.app
      → IsSound p reg (run_taken p now written s o).app
  run_taken-IsSound now written s none h = h
  run_taken-IsSound now written s (some (t, rest)) h = run_task-IsSound p reg now s.app t h

  step-IsSound : (s : System F) (e : Event F) → IsSound p reg s.app → IsSound p reg (step p s e).app
  unfolding step handle_set_mode handle_create_mock handle_reload_mocks handle_set_config
      handle_create_sequence handle_reset_sequence handle_delete_sequence handle_set_upstreams
      reload_full
  step-IsSound s (request send req clock draws) h =
      proxy_handler-IsSound p reg send s.app req clock draws h
  step-IsSound s (run i now written) h = run_taken-IsSound now written s (take_nth i s.pending) h
  step-IsSound s (set_mode written m) h = h
  step-IsSound s (create_mock entry) (o, t, b) =
      (handle_create_mock-IsOwned entry s.app.mock.library o, t, b)
  step-IsSound s reload_mocks (o, t, b) = (load_all_service_mocks-IsOwned p.entries s.files, t, b)
  step-IsSound s (file_changed fname) (o, t, b) =
      (reload_one_file-IsOwned p.entries s.files fname s.app.mock.library o, t, b)
  step-IsSound s (set_config status body) h = h
  step-IsSound s (create_sequence seq) h = h
  step-IsSound s (reset_sequence id) h = h
  step-IsSound s (delete_sequence id) h = h
  step-IsSound s (set_upstreams upstreams) h = h
  step-IsSound s (edited files) h = h

  -- Every state that the running proxy can reach is sound. From a sound state, after whatever
  -- requests, administrative calls, spawned tasks, reloads and changes of the files, in whatever
  -- order: each segment of the library holds its own service alone, under its own keys; each
  -- captured resource is in a state that its statechart gets to; counters fit their width and
  -- buckets of samples their bound.
  pub Reach-IsSound : {s t : System F} → Reach p s t → IsSound p reg s.app → IsSound p reg t.app
  Reach-IsSound start h = h
  Reach-IsSound (after {t} e reached) h = step-IsSound t e (Reach-IsSound reached h)
