-- ===== src/State.antt =====
-- `AppState` of src/main.rs, what a request brings to the handler, and the parameters that stand for
-- the crates, the clock and the random generator.
use gostly_ai_proxy.Base.{ℕ, Bool, Option, List, Text}
use gostly_ai_proxy.Base.HashMap.{HashMap}
use gostly_ai_proxy.Types.{Mode}
use gostly_ai_proxy.Http.{Bytes, HeaderMap}
use gostly_ai_proxy.Json.{Json}
use gostly_ai_proxy.Library.Reload.{Serde}
use gostly_ai_proxy.Swap.{JsonSerde}
use gostly_ai_proxy.Paths.{UpstreamRoute}
use gostly_ai_proxy.Chaos.Config.{ChaosConfig, MarkovState}
use gostly_ai_proxy.Chaos.Draw.{Floats}
use gostly_ai_proxy.Telemetry.{TelemetryCollector}
use gostly_ai_proxy.WideEvents.{WideEvent}
use gostly_ai_proxy.Proxy.{MockState, MockQuery}
use gostly_ai_proxy.Response.{HttpRules}

-- The crates that the handler calls.
pub record Platform (F : Type 0) : Type 0 where
  -- `char::is_alphanumeric` beyond ASCII.
  pub wide : ℕ → Bool
  pub json : JsonSerde
  -- `serde_json::from_slice::<Value>(bytes).ok()`.
  pub parse_bytes : Bytes → Option Json
  pub entries : Serde
  -- `serde_json::to_string(&event).ok()`.
  pub print_event : WideEvent → Option Text
  pub from_utf8_lossy : Bytes → Text
  pub rules : HttpRules
  pub floats : Floats F

-- `mock` holds the fields that MOCK mode reads and writes. The HTTP client is the argument `send` of
-- the handler, and the registry of statecharts stands in the resource store.
pub record AppState (F : Type 0) : Type 0 where
  pub mode : Mode
  pub mock : MockState
  pub upstreams : List (UpstreamRoute (ChaosConfig F))
  pub backend_url : Text
  pub mock_dir : Text
  pub sequence_file_path : Text
  pub mode_file_path : Text
  pub redact_headers : List Text
  pub max_body_bytes : ℕ
  pub traffic_log_dir : Text
  pub wide_events_dir : Text
  pub observability_enabled : Bool
  pub entry_counter : ℕ
  pub markov_state : HashMap Text MarkovState
  pub onboarding_proxied : List Text
  pub onboarding_served : List Text
  pub telemetry : TelemetryCollector F
  -- The static counter of src/wide_events.rs.
  pub event_counter : ℕ

-- A request as `axum` gives it. `query` is the part of `path_and_query` after the `?`; a body that
-- cannot be collected is `none`.
pub record Request : Type 0 where
  pub method : Text
  pub path_and_query : Option Text
  pub query : Option Text
  pub headers : HeaderMap
  pub body : Option Bytes

-- A request once its tenant, its route and its class are known.
pub record Routed (F : Type 0) : Type 0 where
  pub asked : MockQuery
  pub headers : HeaderMap
  pub bytes : Bytes
  pub resolved_upstream : Text
  pub mode : Mode
  pub chaos : Option (ChaosConfig F)
  pub service_redact_headers : List Text
  pub workload_label : Text

-- What the clock says each time the handler asks it, `latency_ms` for the upstream's answer.
pub record Clock : Type 0 where
  pub latency_ms : ℕ
  pub entry_millis : ℕ
  pub entry_time : Text
  pub event_millis : ℕ
  pub event_time : Text
  pub traffic_millis : ℕ
  pub markov_new : ℕ
  pub markov_step : ℕ
  pub now : ℕ

-- The values of the random generator, one for each call in the handler.
pub record Draws (F : Type 0) : Type 0 where
  pub latency_1 : F
  pub latency_2 : F
  pub error : F
  pub choice : F
  pub dwell : F

-- What the handler spawns and does not wait for. The writes go to `mock_{svc}.jsonl`, to
-- `traffic_{svc}.jsonl` and to the file of wide events.
pub data Task : Type 0 where
  append_to_mock_log : Text → Text → Task
  append_to_traffic_log : Text → Text → Task
  append_wide_event : WideEvent → Task
  capture : Text → Text → Json → Option Text → ℕ → Task
