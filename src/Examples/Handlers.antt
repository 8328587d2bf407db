-- ===== src/Examples/Handlers.antt =====
-- The theorems of the handler at a charge that is created while learning.
use gostly_ai_proxy.Library.{publish}
use gostly_ai_proxy.Base.{
  triple_beq, ℕ, ◌≡◌, refl, true, none, some, List, [], ◌∷◌, Text, text_eq, codes, has, list_beq,
  arith, All, map, Option,
}
use mathlib.Core.Option.{get_or, none-ne-some}
use gostly_ai_proxy.Base.HashMap
use gostly_ai_proxy.Types.{MockEntry, global_tenant, mock, passthrough}
use gostly_ai_proxy.Statechart.Fixtures.{with_bundled_fixtures}
use gostly_ai_proxy.Paths.{path_collection_segment}
use gostly_ai_proxy.Paths.Collection.{under}
use gostly_ai_proxy.ResourceStore.{lookup}
use gostly_ai_proxy.ResourceStore.Extract.{extract_id}
use gostly_ai_proxy.Json.{get_field}
use gostly_ai_proxy.Sequence.{find_sequence_response}
use gostly_ai_proxy.Proxy.{served, exact_match, handle_mock}
use gostly_ai_proxy.Proxy.Created.{get_query}
use gostly_ai_proxy.State.{AppState, Routed, Task}
use gostly_ai_proxy.Response.{Response}
use gostly_ai_proxy.Learn.{line_of, run_task, record_response, run_tasks, traffic_id}
use gostly_ai_proxy.Learn.TrafficLines.{Recording, traffic_lines, record_all}
use gostly_ai_proxy.Learn.Unique.{HasOwnIds, record_all-HasOwnIds}
use gostly_ai_proxy.Learn.Created.{handle_mock-created}
use gostly_ai_proxy.Learn.Redacted.{
  redact_floor, CoversFloor, KeepsFloor, IsSafe, initial_redact_headers,
  initial_redact_headers-CoversFloor,
}
use gostly_ai_proxy.Handler.{handle_routed, proxy_handler}
use gostly_ai_proxy.Handler.Effect.{Effect, handle_routed-Effect}
use gostly_ai_proxy.Handler.Branches.{
  mocking, passes, DiffersInMarkov, handle_routed-local, handle_routed-untouched,
}
use gostly_ai_proxy.Handler.Redaction.{IsConfidential, proxy_handler-IsConfidential}
use gostly_ai_proxy.Handler.Sound.{IsSound}
use gostly_ai_proxy.System.{System, request, run, reload_mocks, step, start, after}
use gostly_ai_proxy.System.Reachable.{Reach-IsSound}
use gostly_ai_proxy.Examples.Servers.{
  platform, app, routed, post_charge, clock, draws, upstream, down, charge_bytes, charge_body,
}

abbrev mocked : Routed ℕ
mocked = record routed { mode = mock }

abbrev passed : Routed ℕ
passed = record routed { mode = passthrough }

each : (names : List Text) → All (λ (h : Text). h ≡ h) names
each [] = tt
each (n ∷ names) = (refl, each names)

floor_kept : KeepsFloor platform.rules.to_lowercase
floor_kept = each redact_floor

covered : CoversFloor app.redact_headers
unfolding initial_redact_headers
covered = initial_redact_headers-CoversFloor (λ t. t) none

abbrev after_learning : AppState ℕ
after_learning = (handle_routed platform upstream app routed clock draws).1

abbrev charge_headers : List (Text × Option Text)
charge_headers = (codes "set-cookie", some (codes "sid=1")) ∷ []

handle_routed-Effect_example :
    Effect platform app.mock.library upstream routed
      (handle_routed platform upstream app routed clock draws)
handle_routed-Effect_example = handle_routed-Effect platform upstream app routed clock draws

handle_routed-local_example :
    handle_routed platform down app mocked clock draws
    ≡ handle_routed platform upstream app mocked clock draws
handle_routed-local_example =
    handle_routed-local platform down upstream app mocked clock draws mocking

handle_routed-untouched_example :
    DiffersInMarkov platform app (handle_routed platform upstream app passed clock draws).1
    × ((handle_routed platform upstream app passed clock draws).2 ≡ [])
handle_routed-untouched_example =
    handle_routed-untouched platform upstream app passed clock draws passes

confidential : IsConfidential platform floor_kept app
confidential = (covered, tt)

proxy_handler-IsConfidential_example :
    IsConfidential platform floor_kept
      (proxy_handler platform upstream app post_charge clock draws).1
    × All (IsSafe platform) (proxy_handler platform upstream app post_charge clock draws).2
proxy_handler-IsConfidential_example =
    proxy_handler-IsConfidential platform floor_kept upstream app post_charge clock draws
      confidential

initial_redact_headers-CoversFloor_example :
    CoversFloor (initial_redact_headers (λ t. t) (some (codes "x-mine, x-other")))
initial_redact_headers-CoversFloor_example =
    initial_redact_headers-CoversFloor (λ t. t) (some (codes "x-mine, x-other"))

same_id : traffic_id 1002 7 ≡ codes "1002_7"
unfolding traffic_id
same_id = refl

abbrev charged : Recording ℕ
charged = record {
  routed = record routed {
    asked = record routed.asked { resolved_service_id = some (codes "pay") };
  };
  clock = clock;
  status = 201;
  headers = [];
  bytes = charge_bytes;
}

-- The same request twice in one millisecond.
record_all-HasOwnIds_example :
    (es : List MockEntry) × (traffic_lines (record_all platform app (charged ∷ charged ∷ []))
      ≡ map (line_of platform) es)
    × HasOwnIds es
record_all-HasOwnIds_example =
    record_all-HasOwnIds platform app (charged ∷ charged ∷ []) (omega arith)

abbrev system : System ℕ
system = record { app = app; pending = []; files = []; mode_file = none }

-- A request, its first task, and a reload.
abbrev used : System ℕ
used =
    step platform
      (step platform (step platform system (request upstream post_charge clock draws))
        (run 0 9 true))
      reload_mocks

sound : IsSound platform with_bundled_fixtures app
unfolding lookup HashMap.get
sound = (tt, (refl, λ svc collection id st h. absurd (none-ne-some st h)), (tt, tt))

Reach-IsSound_example : IsSound platform with_bundled_fixtures used.app
Reach-IsSound_example =
    Reach-IsSound platform with_bundled_fixtures
      (after reload_mocks
        (after (run 0 9 true) (after (request upstream post_charge clock draws) start)))
      sound

charge_id : extract_id charge_body (codes "charges") none ≡ some (codes "ch_1")
unfolding extract_id get_field list_beq
charge_id = refl

charges : path_collection_segment (codes "/v1/charges") ≡ some (codes "charges")
unfolding path_collection_segment list_beq
charges = refl

abbrev recorded : AppState ℕ × List Task
recorded = record_response platform app routed clock 201 [] charge_bytes

no_exact :
    exact_match
      (run_tasks platform 9 recorded.0 recorded.1).mock
      (get_query (under (codes "/v1/charges") (codes "ch_1")) global_tenant none)
    ≡ none
unfolding exact_match record_response list_beq run_task publish HashMap.insert HashMap.get
    triple_beq
no_exact = refl

no_sequence :
    (find_sequence_response platform.wide recorded.0.mock.sequences
      recorded.0.mock.sequence_counters
      (codes "GET")
      (under (codes "/v1/charges") (codes "ch_1"))).0
    ≡ none
unfolding find_sequence_response record_response
no_sequence = refl

handle_mock-created_example :
    (handle_mock platform.wide platform.json
      (run_tasks platform 9 recorded.0 recorded.1).mock
      11
      (get_query (under (codes "/v1/charges") (codes "ch_1")) global_tenant none)).0
    ≡ served (record {
      status = 200;
      headers = (codes "Content-Type", codes "application/json") ∷ [];
      body = get_or (platform.json.print charge_body) [];
      latency_ms = 0;
      extra_key = codes "X-Ghost-Resource";
      extra_val = codes "true";
    })
unfolding has list_beq
handle_mock-created_example =
    handle_mock-created platform app routed clock 9 11 201 [] charge_bytes (codes "charges")
      (codes "ch_1") global_tenant charge_body refl charges refl charge_id refl refl refl refl refl
      refl no_exact no_sequence
