-- ===== src/Learn/Created.antt =====
-- A resource that a POST created in LEARN mode, once its capture has run, in MOCK mode (src/main.rs).
use gostly_ai_proxy.Base.{
  ℕ, ◌≡◌, refl, sym, ap, ◌∙◌, Bool, true, false, ◌&&◌, ◌||◌, none, some, List, [], ◌∷◌, ◌++◌, Text,
  text_eq, ◌==◌, codes, leb, ltb, has, All, All-append, by_if, by_option, if◌then◌else◌,
}
use mathlib.Core.Option.{get_or}
use gostly_ai_proxy.Base.HashMap.{HashMap}
use gostly_ai_proxy.Http.{Bytes}
use gostly_ai_proxy.Json.{Json}
use gostly_ai_proxy.Library.{service_key}
use gostly_ai_proxy.ResourceStore.{captured}
use gostly_ai_proxy.ResourceStore.Extract.{extract_id}
use gostly_ai_proxy.Sequence.{find_sequence_response}
use gostly_ai_proxy.Paths.{path_collection_segment, is_segment, is_in, non_id_segments, is_version}
use gostly_ai_proxy.Paths.Collection.{under}
use gostly_ai_proxy.Proxy.{MockState, served, exact_match, handle_mock}
use gostly_ai_proxy.Proxy.Created.{get_query, with_captured, handle_mock-captured}
use gostly_ai_proxy.State.{
  Platform, AppState, Routed, Clock, Task, append_to_mock_log, append_to_traffic_log,
  append_wide_event, capture,
}
use gostly_ai_proxy.Learn.{
  learned_entry, emit_event, count_learned, log_traffic, publish_learned, content_type_of,
  capture_parsed, capture_under, capture_tasks, record_response, run_task, run_tasks,
}

-- A task that writes a file and not the state.
data IsWrite : Task → Type 0 where
  mock_line : (svc line : Text) → IsWrite (append_to_mock_log svc line)
  traffic_line : (svc line : Text) → IsWrite (append_to_traffic_log svc line)
  event_line : (event : _) → IsWrite (append_wide_event event)

module _ {F : Type 0} (p : Platform F) where
  run_task-write : (now : ℕ) (st : AppState F) (t : Task) → IsWrite t → run_task p now st t ≡ st
  unfolding run_task
  run_task-write now st (append_to_mock_log svc line) w = refl
  run_task-write now st (append_to_traffic_log svc line) w = refl
  run_task-write now st (append_wide_event event) w = refl
  run_task-write now st (capture svc collection body content_type status) w = elim w [ ]

  run_tasks-writes :
      (now : ℕ) (st : AppState F) (ts more : List Task)
      → All IsWrite ts
      → run_tasks p now st (ts ++ more) ≡ run_tasks p now st more
  run_tasks-writes now st [] more w = refl
  run_tasks-writes now st (t ∷ ts) more (w, ws) =
      ap (λ (s : AppState F). run_tasks p now s (ts ++ more)) (run_task-write now st t w)
      ∙ run_tasks-writes now st ts more ws

  -- The tasks of a recording are writes, then the capture.
  record_response-writes :
      (now : ℕ) (st : AppState F) (r : Routed F) (clock : Clock) (status : ℕ)
      (headers : HashMap Text Text) (bytes : Bytes)
      → let result = record_response p st r clock status headers bytes in
        run_tasks p now result.0 result.1
        ≡ run_tasks p now result.0 (capture_tasks p r status headers bytes)
  unfolding record_response
  record_response-writes now st r clock status headers bytes =
      let entry = learned_entry p st r clock status headers bytes in
      let (st1, event) = emit_event p st r clock status in
      let st2 = count_learned p st1 r clock in
      let (st3, traffic) = log_traffic p st2 r clock entry in
      let (st4, line) = publish_learned p st3 r entry in
      let w1 : All IsWrite event =
        by_if (λ (x : AppState F × List Task). All IsWrite x.1) st.observability_enabled _ (st, [])
          (event_line _, tt) tt in
      let w2 : All IsWrite traffic =
        by_option (λ (x : AppState F × List Task). All IsWrite x.1) r.asked.resolved_service_id
          (st2, []) _ tt (λ svc. (traffic_line svc _, tt)) in
      run_tasks-writes now st4 (event ++ traffic ++ line) (capture_tasks p r status headers bytes) (
        All-append IsWrite (event ++ traffic) line (All-append IsWrite event traffic w1 w2)
          (mock_line _ _, tt))

  -- The request whose answer is captured.
  creates :
      (r : Routed F) (status : ℕ) (headers : HashMap Text Text) (bytes : Bytes) (collection : Text)
      (body : Json)
      → ((r.asked.method == codes "POST" || r.asked.method == codes "PUT")
          && leb 200 status
          && ltb status 300)
        ≡ true
      → path_collection_segment r.asked.path_query ≡ some collection
      → p.parse_bytes bytes ≡ some body
      → capture_tasks p r status headers bytes
        ≡ capture
            (service_key r.asked.resolved_service_id)
            collection
            body
            (content_type_of p headers)
            status
          ∷ []
  unfolding capture_tasks
  creates r status headers bytes collection body made at parsed =
      by_true _ _ [] made
      ∙ ap (capture_under p r status headers bytes) at
      ∙ ap (capture_parsed p r status headers collection) parsed
    where
      by_true : (b : Bool) (x y : List Task) → b ≡ true → (if b then x else y) ≡ x
      by_true true x y h = refl
      by_true false x y h = cc

  -- A resource that was created while learning can be read while mocking. A POST or PUT to a
  -- collection that the upstream answered with a 2xx and a JSON body with an id was recorded, and
  -- all that it spawned has run; then MOCK mode answers the GET of that id under the collection, for
  -- the same service, as a 200 with the body of that response, printed, and its content type, which
  -- is that of JSON where it had none. It holds where the path has no query, the id is one
  -- segment and not a reserved word or version, and neither an exact mock nor a sequence answers.
  pub handle_mock-created :
      (st : AppState F) (r : Routed F) (clock : Clock) (now later status : ℕ)
      (headers : HashMap Text Text) (bytes : Bytes) (collection id tenant : Text) (body : Json)
      → ((r.asked.method == codes "POST" || r.asked.method == codes "PUT")
          && leb 200 status
          && ltb status 300)
        ≡ true
      → path_collection_segment r.asked.path_query ≡ some collection
      → p.parse_bytes bytes ≡ some body
      → extract_id body collection none ≡ some id
      → has b'?' r.asked.path_query ≡ false
      → has b'?' id ≡ false
      → has b'/' id ≡ false
      → is_segment id ≡ true
      → is_in non_id_segments id ≡ false
      → is_version id ≡ false
      → exact_match
          (run_tasks p now
            (record_response p st r clock status headers bytes).0
            (record_response p st r clock status headers bytes).1).mock
          (get_query (under r.asked.path_query id) tenant r.asked.resolved_service_id)
        ≡ none
      → (find_sequence_response p.wide
          (record_response p st r clock status headers bytes).0.mock.sequences
          (record_response p st r clock status headers bytes).0.mock.sequence_counters
          (codes "GET")
          (under r.asked.path_query id)).0
        ≡ none
      → (handle_mock p.wide p.json
          (run_tasks p now
            (record_response p st r clock status headers bytes).0
            (record_response p st r clock status headers bytes).1).mock
          later
          (get_query (under r.asked.path_query id) tenant r.asked.resolved_service_id)).0
        ≡ served (record {
          status = 200;
          headers =
              (codes "Content-Type", get_or (content_type_of p headers) (codes "application/json"))
              ∷ [];
          body = get_or (p.json.print body) [];
          latency_ms = 0;
          extra_key = codes "X-Ghost-Resource";
          extra_val = codes "true";
        })
  unfolding run_task captured
  handle_mock-created st r clock now later status headers bytes collection id tenant body made at
        parsed found plain plain_id whole nonempty unreserved unversioned no_exact no_sequence =
      let st' = (record_response p st r clock status headers bytes).0 in
      let content_type = content_type_of p headers in
      let service_id = r.asked.resolved_service_id in
      let q = get_query (under r.asked.path_query id) tenant service_id in
      let ran : (run_tasks p now st' (record_response p st r clock status headers bytes).1).mock
          ≡ with_captured st'.mock now service_id collection body content_type status =
        ap (λ (s : AppState F). s.mock)
          (record_response-writes now st r clock status headers bytes
            ∙ ap (run_tasks p now st')
                (creates r status headers bytes collection body made at parsed)) in
      ap (λ (m : MockState). (handle_mock p.wide p.json m later q).0) ran
      ∙ handle_mock-captured p.wide p.json st'.mock now later r.asked.path_query collection id
          tenant body content_type service_id status at found plain plain_id whole nonempty
          unreserved unversioned (ap (λ (m : MockState). exact_match m q) (sym ran) ∙ no_exact)
          no_sequence
