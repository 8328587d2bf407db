-- ===== src/Examples/Servers.antt =====
-- A proxy at work: the parameters, a state and a request that the theorems about the handler are
-- applied at. Floating point numbers are natural numbers there.
use gostly_ai_proxy.Base.{
  ℕ, ◌+◌, ◌-◌, ◌*◌, ◌/◌, true, false, none, some, [], ◌∷◌, text_eq, ◌==◌, codes, ltb, leb, max,
  if◌then◌else◌,
}
use gostly_ai_proxy.Types.{global_tenant, learn}
use gostly_ai_proxy.Http.{Bytes, HeaderMap}
use gostly_ai_proxy.Json.{Json}
use gostly_ai_proxy.Json.Json.{string, object}
use gostly_ai_proxy.Json.Fields.{field, no_fields}
use gostly_ai_proxy.Library.{empty_library}
use gostly_ai_proxy.Statechart.Fixtures.{with_bundled_fixtures}
use gostly_ai_proxy.ResourceStore
use gostly_ai_proxy.Swap.{JsonSerde}
use gostly_ai_proxy.Telemetry
use gostly_ai_proxy.Chaos.Draw.{Floats}
use gostly_ai_proxy.Response.{HttpRules}
use gostly_ai_proxy.Proxy.{MockState}
use gostly_ai_proxy.State.{Platform, AppState, Request, Routed, Clock, Draws}
use gostly_ai_proxy.Upstream.{UpstreamRequest, Sent, refused, replied}
use gostly_ai_proxy.Learn.Redacted.{redact_floor}
use gostly_ai_proxy.Examples.Entry.{serde}

abbrev pub floats : Floats ℕ
floats = record {
  zero = 0;
  one = 1;
  two = 2;
  tiny = 0;
  rate_06 = 1;
  five = 5;
  of_u64 = λ n. n;
  add = λ a b. a + b;
  sub = λ a b. a - b;
  mul = λ a b. a * b;
  div = λ a b. a / b;
  neg = λ a. a;
  ln = λ a. a;
  max_of = λ a b. max a b;
  lt = ltb;
  le = leb;
  to_u64 = λ n. n;
  round_u64 = λ n. n;
  to_i64_max_one = λ n. max n 1;
}

abbrev pub rules : HttpRules
rules = record {
  is_status = λ s. true;
  is_method = λ m. true;
  header_name = λ n. some n;
  is_header_value = λ v. true;
  is_header_str = λ v. true;
  to_lowercase = λ t. t;
}

abbrev pub charge_body : Json
charge_body = object (field (codes "id") (string (codes "ch_1")) no_fields)

abbrev pub charge_bytes : Bytes
charge_bytes = codes "charge"

abbrev pub json : JsonSerde
json = record { parse = λ t. none; print = λ v. none }

abbrev pub platform : Platform ℕ
platform = record {
  wide = λ c. false;
  json = json;
  parse_bytes = λ b. if b == charge_bytes then some charge_body else none;
  entries = serde;
  print_event = λ e. none;
  from_utf8_lossy = λ b. b;
  rules = rules;
  floats = floats;
}

abbrev pub mock_state : MockState
mock_state = record {
  library = empty_library;
  sequences = [];
  sequence_counters = [];
  resource_store = ResourceStore.new [] (some with_bundled_fixtures);
  unmatched = [];
  runtime_config = record { unmatched_status = 404; unmatched_body = codes "{}" };
  smart_swap_enabled = true;
}

abbrev pub app : AppState ℕ
app = record {
  mode = learn;
  mock = mock_state;
  upstreams = [];
  backend_url = codes "http://pay";
  mock_dir = codes "mocks";
  sequence_file_path = codes "sequences";
  mode_file_path = codes "mode";
  redact_headers = redact_floor;
  max_body_bytes = 1000;
  traffic_log_dir = codes "traffic";
  wide_events_dir = codes "events";
  observability_enabled = true;
  entry_counter = 7;
  markov_state = [];
  onboarding_proxied = [];
  onboarding_served = [];
  telemetry = Telemetry.new;
  event_counter = 3;
}

abbrev pub no_headers : HeaderMap
no_headers = record { get_str = λ n. none; contains_key = λ n. false; entries = [] }

abbrev pub post_charge : Request
post_charge = record {
  method = codes "POST";
  path_and_query = some (codes "/v1/charges");
  query = none;
  headers = no_headers;
  body = some (codes "amount=5");
}

abbrev pub routed : Routed ℕ
routed = record {
  asked = record {
    method = codes "POST";
    path_query = codes "/v1/charges";
    body_str = codes "amount=5";
    tenant = global_tenant;
    resolved_service_id = none;
  };
  headers = no_headers;
  bytes = codes "amount=5";
  resolved_upstream = codes "http://pay";
  mode = learn;
  chaos = none;
  service_redact_headers = [];
  workload_label = codes "unknown";
}

abbrev pub clock : Clock
clock = record {
  latency_ms = 20;
  entry_millis = 1000;
  entry_time = codes "t";
  event_millis = 1001;
  event_time = codes "t";
  traffic_millis = 1002;
  markov_new = 1003;
  markov_step = 1004;
  now = 1005;
}

abbrev pub draws : Draws ℕ
draws = record { latency_1 = 0; latency_2 = 1; error = 0; choice = 1; dwell = 0 }

-- An upstream that creates the charge and sets a cookie, and one that is down.
abbrev pub upstream : UpstreamRequest → Sent
upstream request = replied 201 ((codes "set-cookie", some (codes "sid=1")) ∷ []) charge_bytes

abbrev pub down : UpstreamRequest → Sent
down request = refused
