-- ===== src/Handler/Sound.antt =====
-- The structural invariant of the state: what the library, the resource store and the telemetry each
-- keep, kept by every request and by every capture that runs later.
use gostly_ai_proxy.Base.{
  ℕ, ◌≡◌, Option, none, some, List, [], ◌∷◌, Text, text_eq, ◌==◌, codes, All, Option-cases, inl,
  inr, by_if, by_option,
}
use gostly_ai_proxy.Base.HashMap.{HashMap}
use gostly_ai_proxy.Http.{Bytes}
use gostly_ai_proxy.Json.{Json}
use gostly_ai_proxy.Types.{MockEntry}
use gostly_ai_proxy.Library.{service_key}
use gostly_ai_proxy.Library.Owned.{IsOwned, publish-IsOwned}
use gostly_ai_proxy.Statechart.{StatechartRegistry}
use gostly_ai_proxy.ResourceStore.{ResourceStore, ResourceState, capture_create, apply_transition}
use gostly_ai_proxy.ResourceStore.Extract.{extract_id}
use gostly_ai_proxy.ResourceStore.Lookup.{Transition, refused, made, apply_transition_cases}
use gostly_ai_proxy.ResourceStore.Tracked.{
  IsTracked, capture_create-IsTracked, apply_transition-IsTracked,
}
use gostly_ai_proxy.Telemetry.{
  fire_onboarding_event, inc_counter, first_mock_recorded_total, mock_fidelity_ms,
}
use gostly_ai_proxy.Telemetry.Bounds.{
  IsBounded, inc_counter-IsBounded, record_observation-IsBounded, fire_onboarding_event-IsBounded,
}
use gostly_ai_proxy.Proxy.{MockState, Reply, served, missed, handle_mock}
use gostly_ai_proxy.Proxy.Preserves.{IsKept, handle_mock-kept}
use gostly_ai_proxy.State.{
  Platform, AppState, Request, Routed, Clock, Draws, Task, append_to_mock_log,
  append_to_traffic_log, append_wide_event, capture,
}
use gostly_ai_proxy.Upstream.{UpstreamRequest, Sent}
use gostly_ai_proxy.Learn.{
  learned_entry, emit_event, count_learned, log_traffic, record_response, run_task,
}
use gostly_ai_proxy.Handler.{note_served, serve_mock, proxy_handler}
use gostly_ai_proxy.Handler.Invariant.{IsInvariant, proxy_handler-Kept}

-- Every resource is bound under the registry and in a state that its machine gets to.
abbrev pub IsTracking : StatechartRegistry → ResourceStore → Type 0
IsTracking reg store = (store.registry ≡ some reg) × IsTracked reg store

Transition-registry :
    (reg : StatechartRegistry) {store : ResourceStore} {now : ℕ} {svc collection id action : Text}
    {r : Option Text × ResourceStore × Option ResourceState}
    → store.registry ≡ some reg
    → Transition store now svc collection id action r
    → r.1.registry ≡ some reg
Transition-registry reg h refused = h
Transition-registry reg h (made reg' before after next registered known valid) = h

registry-capture_create :
    (reg : StatechartRegistry) (store : ResourceStore) (now : ℕ) (svc collection : Text)
    (body : Json) (hint content_type : Option Text) (status : ℕ)
    → store.registry ≡ some reg
    → (capture_create store now svc collection body hint content_type status).1.registry ≡ some reg
unfolding capture_create
registry-capture_create reg store now svc collection body hint content_type status h =
    elim (Option-cases (extract_id body collection hint)) [
      | inl missing ↦ rw (missing, capture_create) h
      | inr (id, found) ↦ rw (found, capture_create) h
    ]

capture_create-IsTracking :
    (reg : StatechartRegistry) (store : ResourceStore) (now : ℕ) (svc collection : Text)
    (body : Json) (hint content_type : Option Text) (status : ℕ)
    → IsTracking reg store
    → IsTracking reg (capture_create store now svc collection body hint content_type status).1
capture_create-IsTracking reg store now svc collection body hint content_type status (h, k) = (
  registry-capture_create reg store now svc collection body hint content_type status h,
  capture_create-IsTracked reg store now svc collection body hint content_type status h k,
)

apply_transition-IsTracking :
    (reg : StatechartRegistry) (store : ResourceStore) (now : ℕ) (svc collection id action : Text)
    → IsTracking reg store
    → IsTracking reg (apply_transition store now svc collection id action).1
apply_transition-IsTracking reg store now svc collection id action (h, k) = (
  Transition-registry reg h (apply_transition_cases store now svc collection id action),
  apply_transition-IsTracked reg store now svc collection id action h k,
)

-- Nothing is asked of the tasks here.
abbrev Anything : Task → Type 0
Anything task = Unit

All-Anything : (ts : List Task) → All Anything ts
All-Anything [] = tt
All-Anything (t ∷ ts) = (tt, All-Anything ts)

-- The part of the invariant that MOCK mode touches.
abbrev IsSoundMock : StatechartRegistry → MockState → Type 0
IsSoundMock reg m = IsOwned m.library × IsTracking reg m.resource_store

mock_sound : (reg : StatechartRegistry) → IsKept (IsSoundMock reg)
mock_sound reg = record {
  counted = λ st c h. h;
  advanced = λ st now svc collection id action (o, t).
      (o, apply_transition-IsTracking reg st.resource_store now svc collection id action t);
  noted = λ st q h. h;
}

module _ {F : Type 0} (p : Platform F) (reg : StatechartRegistry) where
  abbrev pub IsSound : AppState F → Type 0
  IsSound st =
      IsOwned st.mock.library × IsTracking reg st.mock.resource_store × IsBounded st.telemetry

  note_served-IsSound :
      (st : AppState F) (r : Routed F) (reply : Reply)
      → IsSound st
      → IsSound (note_served p st r reply)
  unfolding fire_onboarding_event
  note_served-IsSound st r (missed status body) h = h
  note_served-IsSound st r (served a) (o, k, b) =
      by_if IsSound (a.extra_key == codes "X-Ghost-Transition") st _ (o, k, b)
        (
          o,
          k,
          fire_onboarding_event-IsBounded st.telemetry (codes "first_mock_served")
              r.asked.resolved_service_id st.onboarding_served b,
        )

  serve_mock-IsSound :
      (st : AppState F) (r : Routed F) (clock : Clock)
      → IsSound st
      → IsSound (serve_mock p st r clock).1
  unfolding serve_mock
  serve_mock-IsSound st r clock (o, k, b) =
      let m = handle_mock p.wide p.json st.mock clock.now r.asked in
      let kept =
        handle_mock-kept p.wide p.json (IsSoundMock reg) (mock_sound reg) st.mock clock.now r.asked
          (o, k) in
      note_served-IsSound (record st { mock = m.1 }) r m.0 (kept.0, kept.1, b)

  emit_event-IsSound :
      (st : AppState F) (r : Routed F) (clock : Clock) (status : ℕ)
      → IsSound st
      → IsSound (emit_event p st r clock status).0
  emit_event-IsSound st r clock status h =
      by_if (λ (x : AppState F × List Task). IsSound x.0) st.observability_enabled _ (st, []) h h

  count_learned-IsSound :
      (st : AppState F) (r : Routed F) (clock : Clock)
      → IsSound st
      → IsSound (count_learned p st r clock)
  count_learned-IsSound st r clock (o, k, b) =
      let t =
        fire_onboarding_event st.telemetry (codes "first_request_proxied")
          r.asked.resolved_service_id st.onboarding_proxied in
      let b1 =
        fire_onboarding_event-IsBounded st.telemetry (codes "first_request_proxied")
          r.asked.resolved_service_id st.onboarding_proxied b in
      (
        o,
        k,
        record_observation-IsBounded (inc_counter t.1 first_mock_recorded_total 1) mock_fidelity_ms
            (p.floats.of_u64 clock.latency_ms)
            (inc_counter-IsBounded t.1 first_mock_recorded_total 1 b1),
      )

  log_traffic-IsSound :
      (st : AppState F) (r : Routed F) (clock : Clock) (e : MockEntry)
      → IsSound st
      → IsSound (log_traffic p st r clock e).0
  log_traffic-IsSound st r clock e h =
      by_option (λ (x : AppState F × List Task). IsSound x.0) r.asked.resolved_service_id (st, []) _
        h (λ svc. h)

  record_response-IsSound :
      (st : AppState F) (r : Routed F) (clock : Clock) (status : ℕ) (headers : HashMap Text Text)
      (bytes : Bytes)
      → IsSound st
      → IsSound (record_response p st r clock status headers bytes).0
  unfolding record_response
  record_response-IsSound st r clock status headers bytes h =
      let entry = learned_entry p st r clock status headers bytes in
      let st1 = (emit_event p st r clock status).0 in
      let st2 = count_learned p st1 r clock in
      let st3 = (log_traffic p st2 r clock entry).0 in
      let (o, k, b) =
        log_traffic-IsSound st2 r clock entry
          (count_learned-IsSound st1 r clock (emit_event-IsSound st r clock status h)) in
      (publish-IsOwned (service_key r.asked.resolved_service_id) entry st3.mock.library o, k, b)

  IsSound-kept : IsInvariant p IsSound Anything
  IsSound-kept = record {
    chaos_kept = λ st m h. h;
    mock_kept = serve_mock-IsSound;
    learn_kept = record_response-IsSound;
    learn_spawned = λ st r clock status headers bytes h. All-Anything _;
  }

  -- A request in whatever mode, answered by whatever upstream, keeps the state sound: each segment
  -- of the library holds its own service under its own keys, each resource is in a state that its
  -- machine gets to, counters fit their width and buckets of samples their bound.
  pub proxy_handler-IsSound :
      (send : UpstreamRequest → Sent) (st : AppState F) (req : Request) (clock : Clock)
      (draws : Draws F)
      → IsSound st
      → IsSound (proxy_handler p send st req clock draws).1
  proxy_handler-IsSound send st req clock draws h =
      (proxy_handler-Kept p IsSound Anything IsSound-kept send st req clock draws h).0

  pub run_task-IsSound :
      (now : ℕ) (st : AppState F) (t : Task) → IsSound st → IsSound (run_task p now st t)
  unfolding run_task
  run_task-IsSound now st (append_to_mock_log svc line) h = h
  run_task-IsSound now st (append_to_traffic_log svc line) h = h
  run_task-IsSound now st (append_wide_event event) h = h
  run_task-IsSound now st (capture svc collection body content_type status) (o, k, b) = (
    o,
    capture_create-IsTracking reg st.mock.resource_store now svc collection body none content_type
        status k,
    b,
  )
