-- ===== src/Learn.antt =====
-- The LEARN branch of `proxy_handler` (src/main.rs): the upstream is asked, its answer is recorded,
-- published and captured, and is sent on. Log lines and the metrics of the crate `metrics` are left
-- out; what is spawned is returned as tasks.
pub mod Redacted
pub mod Served
pub mod TrafficLines
pub mod Replay
pub mod Unique
pub mod Created
use gostly_ai_proxy.Base.{
  ℕ, ◌+◌, ◌%◌, ◌^◌, Bool, true, false, ◌&&◌, ◌||◌, Option, none, some, List, [], ◌∷◌, ◌++◌, map,
  Text, text_eq, ◌==◌, codes, leb, ltb, length, find, any, to_string, if◌then◌else◌,
}
use gostly_ai_proxy.Base.HashMap.{HashMap}
use gostly_ai_proxy.Http.{Bytes}
use gostly_ai_proxy.Types.{MockEntry}
use gostly_ai_proxy.Json.{Json}
use gostly_ai_proxy.Library.{publish, service_key}
use gostly_ai_proxy.ResourceStore.{capture_create}
use gostly_ai_proxy.Paths.{path_collection_segment}
use gostly_ai_proxy.Telemetry.{
  TelemetryCollector, inc_counter, record_observation, fire_onboarding_event,
  first_mock_recorded_total, mock_fidelity_ms,
}
use gostly_ai_proxy.WideEvents.{request_recorded}
use gostly_ai_proxy.State.{
  Platform, AppState, Routed, Clock, Task, append_to_mock_log, append_to_traffic_log,
  append_wide_event, capture,
}
use gostly_ai_proxy.Response.{Outcome, responded, failed, build_response}
use gostly_ai_proxy.Upstream.{
  UpstreamRequest, Sent, refused, broken, replied, upstream_request, collect_headers,
}

abbrev pub redacted_marker : Text
redacted_marker = codes "[REDACTED]"

unfoldable pub truncated_marker : ℕ → Text
unfolding to_string
truncated_marker n = codes "[BODY_TRUNCATED: " ++ to_string n ++ codes " bytes]"

-- A body of more bytes than the limit is replaced by the marker.
abbrev pub capped : ℕ → Bytes → Text → Text
capped limit bytes text = if ltb limit (length bytes) then truncated_marker (length bytes) else text

-- What is stored of a header.
abbrev pub redact_header : (Text → Text) → List Text → Text × Text → Text × Text
redact_header lower names (k, v) =
    if any (λ n. n == lower k) names then (k, redacted_marker) else (k, v)

unfoldable pub redact_stored : (Text → Text) → List Text → HashMap Text Text → HashMap Text Text
redact_stored lower effective_redact headers = map (redact_header lower effective_redact) headers

-- `{ts}_{seq}`.
unfoldable pub traffic_id : ℕ → ℕ → Text
unfolding to_string
traffic_id ts seq = to_string ts ++ b'_' ∷ to_string seq

module _ {F : Type 0} (p : Platform F) where
  -- The set of names, the floor and the service's, in lower case.
  abbrev pub effective_redact : AppState F → Routed F → List Text
  effective_redact st r = map p.rules.to_lowercase (st.redact_headers ++ r.service_redact_headers)

  unfoldable pub learned_entry :
      AppState F → Routed F → Clock → ℕ → HashMap Text Text → Bytes → MockEntry
  unfolding redact_stored truncated_marker
  learned_entry st r clock res_status res_headers res_bytes = record {
    id = to_string clock.entry_millis;
    timestamp = clock.entry_time;
    request = record {
      method = r.asked.method;
      uri = r.asked.path_query;
      body = capped st.max_body_bytes r.bytes r.asked.body_str;
    };
    response = record {
      status = res_status;
      headers = redact_stored p.rules.to_lowercase (effective_redact st r) res_headers;
      body = capped st.max_body_bytes res_bytes (p.from_utf8_lossy res_bytes);
      latency_ms = clock.latency_ms;
    };
    service_id = r.asked.resolved_service_id;
    tenant = r.asked.tenant;
    workload_class = r.workload_label;
  }

  -- `serde_json::to_string(&entry).unwrap_or_default()`.
  abbrev pub line_of : MockEntry → Text
  line_of e = elim (p.entries.print e) [ none ↦ [] | some l ↦ l ]

  -- The wide event, where observability is on.
  abbrev pub emit_event : AppState F → Routed F → Clock → ℕ → AppState F × List Task
  emit_event st r clock res_status =
      let (event, counter) =
        request_recorded st.event_counter clock.event_millis clock.event_time
          r.asked.resolved_service_id r.asked.method r.asked.path_query res_status clock.latency_ms
          r.workload_label in
      if st.observability_enabled
      then (record st { event_counter = counter }, append_wide_event event ∷ [])
      else (st, [])

  -- The milestone, the counter and the sample.
  abbrev pub count_learned : AppState F → Routed F → Clock → AppState F
  count_learned st r clock =
      let (seen, t1) =
        fire_onboarding_event st.telemetry (codes "first_request_proxied")
          r.asked.resolved_service_id st.onboarding_proxied in
      let t2 = inc_counter t1 first_mock_recorded_total 1 in
      record st {
        onboarding_proxied = seen;
        telemetry = record_observation t2 mock_fidelity_ms (p.floats.of_u64 clock.latency_ms);
      }

  -- The traffic log has a line for each request of a routed service, under an id of its own.
  abbrev pub log_traffic : AppState F → Routed F → Clock → MockEntry → AppState F × List Task
  log_traffic st r clock entry = elim r.asked.resolved_service_id [
    | none ↦ (st, [])
    | some svc_id ↦ (
      record st { entry_counter = (st.entry_counter + 1) % 2 ^ 64 },
      append_to_traffic_log svc_id
            (line_of (record entry { id = traffic_id clock.traffic_millis st.entry_counter }))
          ∷ [],
    )
  ]

  abbrev pub publish_learned : AppState F → Routed F → MockEntry → AppState F × List Task
  publish_learned st r entry =
      let svc_id = service_key r.asked.resolved_service_id in
      (
        record st { mock = record st.mock { library = publish svc_id entry st.mock.library } },
        append_to_mock_log svc_id (line_of entry) ∷ [],
      )

  abbrev pub content_type_of : HashMap Text Text → Option Text
  content_type_of headers =
      elim (find (λ (h : Text × Text). p.rules.to_lowercase h.0 == codes "content-type") headers) [
        | none ↦ none
        | some (k, v) ↦ some v
      ]

  abbrev pub capture_parsed : Routed F → ℕ → HashMap Text Text → Text → Option Json → List Task
  capture_parsed r res_status res_headers collection none = []
  capture_parsed r res_status res_headers collection (some body_json) =
      capture (service_key r.asked.resolved_service_id) collection body_json
        (content_type_of res_headers) res_status
      ∷ []

  abbrev pub capture_under : Routed F → ℕ → HashMap Text Text → Bytes → Option Text → List Task
  capture_under r res_status res_headers res_bytes none = []
  capture_under r res_status res_headers res_bytes (some collection) =
      capture_parsed r res_status res_headers collection (p.parse_bytes res_bytes)

  -- A POST or PUT that gave a 2xx with a JSON body is a resource created.
  unfoldable pub capture_tasks : Routed F → ℕ → HashMap Text Text → Bytes → List Task
  unfolding path_collection_segment
  capture_tasks r res_status res_headers res_bytes =
      if (r.asked.method == codes "POST" || r.asked.method == codes "PUT")
        && leb 200 res_status
        && ltb res_status 300
      then capture_under r res_status res_headers res_bytes
          (path_collection_segment r.asked.path_query)
      else []

  -- The state after a response of the upstream is recorded, with what is spawned.
  unfoldable pub record_response :
      AppState F → Routed F → Clock → ℕ → HashMap Text Text → Bytes → AppState F × List Task
  unfolding learned_entry capture_tasks
  record_response st r clock res_status res_headers res_bytes =
      let entry = learned_entry st r clock res_status res_headers res_bytes in
      let (st1, event) = emit_event st r clock res_status in
      let st2 = count_learned st1 r clock in
      let (st3, traffic) = log_traffic st2 r clock entry in
      let (st4, line) = publish_learned st3 r entry in
      (st4, event ++ traffic ++ line ++ capture_tasks r res_status res_headers res_bytes)

  abbrev pub learn_from : AppState F → Routed F → Clock → Sent → Outcome × AppState F × List Task
  learn_from st r clock refused = (failed 502, st, [])
  learn_from st r clock broken = (failed 502, st, [])
  learn_from st r clock (replied res_status headers res_bytes) =
      let res_headers = collect_headers [] headers in
      let (st', tasks) = record_response st r clock res_status res_headers res_bytes in
      (responded (build_response p.rules res_status res_headers res_bytes), st', tasks)

  -- `Mode::Learn`.
  unfoldable pub handle_learn :
      (UpstreamRequest → Sent) → AppState F → Routed F → Clock → Outcome × AppState F × List Task
  unfolding record_response upstream_request build_response collect_headers
  handle_learn send st r clock = learn_from st r clock (send (upstream_request p.rules r))

  abbrev pub pass_on : AppState F → Sent → Outcome × AppState F × List Task
  pass_on st refused = (failed 502, st, [])
  pass_on st broken = (failed 502, st, [])
  pass_on st (replied res_status headers res_bytes) =
      (responded (build_response p.rules res_status (collect_headers [] headers) res_bytes), st, [])

  -- `Mode::Passthrough`.
  unfoldable pub handle_passthrough :
      (UpstreamRequest → Sent) → AppState F → Routed F → Outcome × AppState F × List Task
  unfolding upstream_request build_response collect_headers
  handle_passthrough send st r = pass_on st (send (upstream_request p.rules r))

  -- A spawned capture, run by the store at the time `now`; the other tasks write files alone.
  unfoldable pub run_task : ℕ → AppState F → Task → AppState F
  unfolding capture_create
  run_task now st (capture svc_key collection body content_type status) = record st {
    mock = record st.mock {
      resource_store =
          (capture_create st.mock.resource_store now svc_key collection body none content_type
            status).1;
    };
  }
  run_task now st (append_to_mock_log svc line) = st
  run_task now st (append_to_traffic_log svc line) = st
  run_task now st (append_wide_event event) = st

  abbrev pub run_tasks : ℕ → AppState F → List Task → AppState F
  run_tasks now st [] = st
  run_tasks now st (t ∷ ts) = run_tasks now (run_task now st t) ts
