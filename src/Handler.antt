-- ===== src/Handler.antt =====
-- `proxy_handler` of src/main.rs from end to end: the request is routed, chaos may answer it, else the
-- branch of its mode does. Its result is the outcome, the state after it, and what it has spawned.
pub mod Invariant
pub mod Sound
pub mod Redaction
pub mod Branches
pub mod Effect
use gostly_ai_proxy.Base.{
  ℕ, Bool, true, false, ◌&&◌, ◌||◌, Option, none, some, List, [], ◌∷◌, ◌++◌, Text, text_eq, ◌==◌,
  codes, ltb, any, utf8, if◌then◌else◌,
}
use mathlib.Core.Option.{get_or}
use gostly_ai_proxy.Base.HashMap
use gostly_ai_proxy.Base.HashMap.{HashMap}
use gostly_ai_proxy.Http.{Bytes, HeaderMap}
use gostly_ai_proxy.Types.{Mode, learn, mock, passthrough, transitioning}
use gostly_ai_proxy.Tenant.{resolve_tenant, lookup_uri}
use gostly_ai_proxy.Workload.{as_str, unknown, infer_workload_class}
use gostly_ai_proxy.Paths.{resolve_upstream}
use gostly_ai_proxy.Chaos.{find_endpoint_rule}
use gostly_ai_proxy.Chaos.Config.{
  ChaosConfig, ChaosSettings, ChaosModel, uniform, markov, MarkovConfig, settings, endpoint_rules,
  StateKind, healthy, degraded, MarkovState,
}
use gostly_ai_proxy.Chaos.Draw
use gostly_ai_proxy.Chaos.Draw.{
  DrawnError, default_markov, compute_latency_ms, draw_error, step_with_rng,
}
use gostly_ai_proxy.Telemetry.{fire_onboarding_event}
use gostly_ai_proxy.State.{Platform, AppState, Request, Routed, Clock, Draws, Task}
use gostly_ai_proxy.Response.{
  HttpRules, Response, Outcome, responded, failed, panicked, status_or, render,
  transitioning_response,
}
use gostly_ai_proxy.Upstream.{UpstreamRequest, Sent}
use gostly_ai_proxy.Learn.{handle_learn, handle_passthrough}
use gostly_ai_proxy.Proxy.{Reply, served, missed, handle_mock}

-- The loop that gives the drawn headers to the builder; `none` is its error.
abbrev chaos_headers : HttpRules → HashMap Text Text → Option (List (Text × Bytes))
chaos_headers rules [] = some []
chaos_headers rules ((k, v) ∷ headers) =
    let rest = chaos_headers rules headers in
    if rules.is_header_str v
    then (elim (rules.header_name k) [
      | none ↦ none
      | some name ↦ elim rest [ none ↦ none | some hs ↦ some ((name, utf8 v) ∷ hs) ]
    ])
    else none

abbrev chaos_marks : List (Text × Bytes)
chaos_marks =
    (codes "content-type", codes "application/json") ∷ (codes "x-ghost-chaos", codes "true") ∷ []

-- The response of a drawn error, an empty 500 where its headers are no headers.
unfoldable pub chaos_response : HttpRules → DrawnError → Response
unfolding utf8
chaos_response rules drawn = elim (chaos_headers rules drawn.headers) [
  | none ↦ record { status = 500; headers = chaos_marks; body = [] }
  | some hs ↦ record {
    status = status_or rules drawn.status 500;
    headers = chaos_marks ++ hs;
    body = utf8 drawn.body;
  }
]

abbrev mode_str : Mode → Text
mode_str mock = codes "MOCK"
mode_str passthrough = codes "PASSTHROUGH"
mode_str _ = []

abbrev pub applies : List Text → Text → Bool
applies [] m = true
applies (n ∷ ns) m = any (λ x. x == m) (n ∷ ns)

module _ {F : Type 0} (p : Platform F) where
  abbrev rates : MarkovConfig F → StateKind → F × F
  rates mc healthy = (p.floats.zero, p.floats.one)
  rates mc degraded = (mc.degraded_error_rate, mc.degraded_latency_mult)

  abbrev chaos_rates_for :
      AppState F → Routed F → Clock → Draws F → ChaosSettings F → ChaosModel → F × F × AppState F
  chaos_rates_for st r clock draws cc uniform = (cc.error_rate, p.floats.one, st)
  chaos_rates_for st r clock draws cc markov =
      let svc_id = get_or r.asked.resolved_service_id [] in
      let mc = get_or cc.markov (default_markov p.floats) in
      let found =
        get_or (HashMap.get st.markov_state svc_id) (Draw.new p.floats clock.markov_new) in
      let (kind, _, next) = step_with_rng p.floats mc clock.markov_step draws.dwell found in
      let (rate, mult) = rates mc kind in
      (rate, mult, record st { markov_state = HashMap.insert st.markov_state svc_id next })

  abbrev draw_response : Draws F → ChaosSettings F → F → Option Response
  draw_response draws cc rate =
      if p.floats.lt p.floats.zero rate && p.floats.lt draws.error rate
      then (elim (draw_error p.floats cc draws.choice) [
        | none ↦ none
        | some drawn ↦ some (chaos_response p.rules drawn)
      ])
      else none

  -- What the configuration that is chosen does: the response injected, the milliseconds slept, and
  -- the state.
  unfoldable pub inject :
      AppState F → Routed F → Clock → Draws F → ChaosSettings F → Option Response × ℕ × AppState F
  unfolding compute_latency_ms draw_error step_with_rng chaos_response
  inject st r clock draws cc =
      let (rate, mult, st') = chaos_rates_for st r clock draws cc cc.chaos_model in
      let base_latency = compute_latency_ms p.floats cc draws.latency_1 draws.latency_2 in
      (
        draw_response draws cc rate,
        p.floats.to_u64 (p.floats.mul (p.floats.of_u64 base_latency) mult),
        st',
      )

  -- An endpoint's rule wins over the service's configuration.
  abbrev pub active_settings : Routed F → ChaosConfig F → ChaosSettings F
  active_settings r svc_cc =
      settings (get_or (find_endpoint_rule (endpoint_rules svc_cc) r.asked.path_query) svc_cc)

  abbrev inject_active :
      AppState F → Routed F → Clock → Draws F → ChaosConfig F → Option Response × ℕ × AppState F
  inject_active st r clock draws svc_cc =
      let active = active_settings r svc_cc in
      if applies active.modes (mode_str r.mode)
      then inject st r clock draws active
      else (none, 0, st)

  abbrev chaos_for :
      AppState F
      → Routed F
      → Clock
      → Draws F
      → Option (ChaosConfig F)
      → Option Response × ℕ × AppState F
  chaos_for st r clock draws none = (none, 0, st)
  chaos_for st r clock draws (some svc_cc) =
      if (settings svc_cc).enabled then inject_active st r clock draws svc_cc else (none, 0, st)

  abbrev is_chaotic : Mode → Bool
  is_chaotic mock = true
  is_chaotic passthrough = true
  is_chaotic _ = false

  -- The block of chaos, which is skipped in LEARN and while transitioning.
  unfoldable pub chaos_block :
      AppState F → Routed F → Clock → Draws F → Option Response × ℕ × AppState F
  unfolding inject find_endpoint_rule
  chaos_block st r clock draws =
      if is_chaotic r.mode then chaos_for st r clock draws r.chaos else (none, 0, st)

  -- The milestone of a served mock; the branch of transitions does not fire it.
  abbrev note_served : AppState F → Routed F → Reply → AppState F
  note_served st r (missed status body) = st
  note_served st r (served a) =
      let (seen, t) =
        fire_onboarding_event st.telemetry (codes "first_mock_served") r.asked.resolved_service_id
          st.onboarding_served in
      if a.extra_key == codes "X-Ghost-Transition"
      then st
      else record st { onboarding_served = seen; telemetry = t }

  -- `Mode::Mock`.
  unfoldable pub serve_mock : AppState F → Routed F → Clock → Outcome × AppState F × List Task
  unfolding handle_mock render fire_onboarding_event
  serve_mock st r clock =
      let (reply, m) = handle_mock p.wide p.json st.mock clock.now r.asked in
      (responded (render p.rules reply), note_served (record st { mock = m }) r reply, [])

  abbrev pub dispatch_as :
      (UpstreamRequest → Sent)
      → AppState F
      → Routed F
      → Clock
      → Mode
      → Outcome × AppState F × List Task
  dispatch_as send st r clock learn = handle_learn p send st r clock
  dispatch_as send st r clock mock = serve_mock st r clock
  dispatch_as send st r clock passthrough = handle_passthrough p send st r
  dispatch_as send st r clock transitioning = (responded transitioning_response, st, [])

  -- The match on the mode.
  unfoldable pub dispatch :
      (UpstreamRequest → Sent) → AppState F → Routed F → Clock → Outcome × AppState F × List Task
  unfolding handle_learn serve_mock handle_passthrough
  dispatch send st r clock = dispatch_as send st r clock r.mode

  -- A response that chaos injects is sent in place of the mode's.
  unfoldable pub handle_routed :
      (UpstreamRequest → Sent)
      → AppState F
      → Routed F
      → Clock
      → Draws F
      → Outcome × AppState F × List Task
  unfolding chaos_block dispatch
  handle_routed send st r clock draws =
      let (injected, slept, st') = chaos_block st r clock draws in
      elim injected [
        | none ↦ dispatch send st' r clock
        | some response ↦ (responded response, st', [])
      ]

  abbrev workload_label : AppState F → HeaderMap → Text
  workload_label st headers =
      let ua = get_or (headers.get_str (codes "user-agent")) [] in
      if st.observability_enabled
      then as_str (infer_workload_class p.rules.to_lowercase headers ua)
      else as_str unknown

  abbrev path_query_of : Request → Text
  path_query_of req = lookup_uri (get_or req.path_and_query (b'/' ∷ []))

  -- A request whose tenant is known.
  unfoldable pub route : AppState F → Request → Bytes → Text → Routed F
  unfolding lookup_uri resolve_upstream as_str infer_workload_class
  route st req bytes tenant =
      let path_query = path_query_of req in
      let host = get_or (req.headers.get_str (codes "host")) [] in
      let (upstream, service_id, service_mode, chaos, redact) =
        resolve_upstream st.upstreams host path_query st.backend_url in
      record {
        asked = record {
          method = req.method;
          path_query = path_query;
          body_str = p.from_utf8_lossy bytes;
          tenant = tenant;
          resolved_service_id = service_id;
        };
        headers = req.headers;
        bytes = bytes;
        resolved_upstream = upstream;
        mode = get_or service_mode st.mode;
        chaos = chaos;
        service_redact_headers = redact;
        workload_label = workload_label st req.headers;
      }

  -- A body that cannot be collected is a 500; a tenant that cannot be cut is a panic.
  unfoldable pub proxy_handler :
      (UpstreamRequest → Sent)
      → AppState F
      → Request
      → Clock
      → Draws F
      → Outcome × AppState F × List Task
  unfolding resolve_tenant route handle_routed
  proxy_handler send st req clock draws = elim req.body [
    | none ↦ (failed 500, st, [])
    | some bytes ↦ elim (resolve_tenant req.headers req.query) [
      | none ↦ (panicked, st, [])
      | some tenant ↦ handle_routed send st (route st req bytes tenant) clock draws
    ]
  ]
