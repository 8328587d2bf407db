-- ===== src/Proxy.antt =====
-- The MOCK branch of `proxy_handler` (src/main.rs): exact match, sequence, resource, transition, smart
-- swap, miss, in that order. A reply is the call of `serve_mock_response` that the branch ends
-- with, or the response of a miss; metrics and log lines are left out.
pub mod Replay
pub mod Created
pub mod Preserves
use gostly_ai_proxy.Base.{
  ℕ, Bool, true, false, ◌&&◌, Option, none, some, List, [], ◌∷◌, ◌++◌, Text, text_eq, ◌==◌, codes,
  if◌then◌else◌,
}
use mathlib.Core.Option.{get_or}
use gostly_ai_proxy.Base.HashMap.{HashMap}
use gostly_ai_proxy.Types.{
  global_tenant, MockEntry, MockRequest, MockSequence, SequenceResponse, RuntimeConfig,
}
use gostly_ai_proxy.Json.{Json, get_field}
use gostly_ai_proxy.Library.{MockLibrary, find_exact, entries_for_service, service_key}
use gostly_ai_proxy.Sequence.{Counters, find_sequence_response}
use gostly_ai_proxy.ResourceStore.{ResourceStore, ResourceState, lookup, apply_transition}
use gostly_ai_proxy.ResourceStore.Extract.{or_else}
use gostly_ai_proxy.Paths.{parse_collection_and_id, parse_collection_id_action}
use gostly_ai_proxy.Swap.{JsonSerde, find_smart_swap}

-- What the branch reads and writes of `AppState`; `library` is the snapshot of the request.
pub record MockState : Type 0 where
  pub library : MockLibrary
  pub sequences : List MockSequence
  pub sequence_counters : Counters
  pub resource_store : ResourceStore
  pub unmatched : List MockRequest
  pub runtime_config : RuntimeConfig
  pub smart_swap_enabled : Bool

-- A request after its tenant, its service and its `path_query` are resolved.
pub record MockQuery : Type 0 where
  pub method : Text
  pub path_query : Text
  pub body_str : Text
  pub tenant : Text
  pub resolved_service_id : Option Text

-- The arguments of `serve_mock_response`, the body as text.
pub record Answer : Type 0 where
  pub status : ℕ
  pub headers : HashMap Text Text
  pub body : Text
  pub latency_ms : ℕ
  pub extra_key : Text
  pub extra_val : Text

pub data Reply : Type 0 where
  served : Answer → Reply
  missed : ℕ → Text → Reply

abbrev pub svc_key : MockQuery → Text
svc_key q = service_key q.resolved_service_id

abbrev pub with_body : Text → Option MockEntry → Option MockEntry
with_body body none = none
with_body body (some entry) = if entry.request.body == body then some entry else none

unfoldable pub exact_match : MockState → MockQuery → Option MockEntry
unfolding find_exact
exact_match st q =
    with_body q.body_str (find_exact st.library (svc_key q) q.method q.path_query q.tenant)

abbrev pub entry_answer : Text → MockEntry → Answer
entry_answer extra_key entry = record {
  status = entry.response.status;
  headers = entry.response.headers;
  body = entry.response.body;
  latency_ms = entry.response.latency_ms;
  extra_key = extra_key;
  extra_val = codes "true";
}

abbrev pub sequence_answer : SequenceResponse → Answer
sequence_answer r = record {
  status = r.status;
  headers = r.headers;
  body = r.body;
  latency_ms = r.latency_ms;
  extra_key = codes "X-Ghost-Sequence";
  extra_val = codes "true";
}

abbrev action_of : Option Json → Option Text
action_of (some (Json.object m)) = elim (get_field m (codes "action")) [
  | some (Json.string s) ↦ some s
  | _ ↦ none
]
action_of _ = none

abbrev with_action : Option (Text × Text) → Option Text → Option (Text × Text × Text)
with_action (some (coll, id)) (some action) = some (coll, id, action)
with_action _ _ = none

abbrev pub resource_target : MockQuery → Option (Text × Text)
resource_target q = if q.method == codes "GET" then parse_collection_and_id q.path_query else none

-- The resource that a GET of `/collection/{id}` finds.
unfoldable pub resource_match : MockState → MockQuery → Option ResourceState
unfolding parse_collection_and_id lookup
resource_match st q = elim (resource_target q) [
  | none ↦ none
  | some (collection, id) ↦ lookup st.resource_store (svc_key q) collection id
]

abbrev pub miss : MockState → MockQuery → Reply × MockState
miss st q = (
  missed st.runtime_config.unmatched_status st.runtime_config.unmatched_body,
  record st {
    unmatched =
        st.unmatched ++ record { method = q.method; uri = q.path_query; body = q.body_str } ∷ [];
  },
)

module _ (wide : ℕ → Bool) (json : JsonSerde) where
  -- Form A: `POST /collection/{id}/{action}`. Form B: `PATCH /collection/{id}` with an action in
  -- the body.
  unfoldable pub transition_request : MockQuery → Option (Text × Text × Text)
  unfolding parse_collection_and_id parse_collection_id_action
  transition_request q =
      or_else (if q.method == codes "POST" then parse_collection_id_action q.path_query else none) (
        if q.method == codes "PATCH"
        then with_action (parse_collection_and_id q.path_query) (action_of (json.parse q.body_str))
        else none)

  abbrev pub resource_answer : Text → Text → ResourceState → Answer
  resource_answer extra_key extra_val resource = record {
    status = 200;
    headers = (codes "Content-Type", resource.content_type) ∷ [];
    body = get_or (json.print resource.body) [];
    latency_ms = 0;
    extra_key = extra_key;
    extra_val = extra_val;
  }

  -- Smart swap, and the miss after it.
  unfoldable pub after_transition : MockState → MockQuery → Reply × MockState
  unfolding find_smart_swap entries_for_service
  after_transition st q =
      if st.smart_swap_enabled
      then elim (find_smart_swap wide json
          (entries_for_service st.library (svc_key q) (some q.tenant)) q.method q.path_query
          q.body_str) [
            | none ↦ miss st q
            | some entry ↦ (served (entry_answer (codes "X-Ghost-SwapMatch") entry), st)
          ]
      else miss st q

  -- The transition is made on the store; its resource is read again to be served.
  unfoldable pub with_transition :
      MockState → ℕ → MockQuery → Text × Text × Text → Reply × MockState
  unfolding apply_transition lookup after_transition
  with_transition st now q (collection, id, action) =
      let r = apply_transition st.resource_store now (svc_key q) collection id action in
      let st' = record st { resource_store = r.1 } in
      elim r.0 [
        | none ↦ after_transition st' q
        | some next ↦ elim (lookup r.1 (svc_key q) collection id) [
          | none ↦ after_transition st' q
          | some resource ↦
              (served (resource_answer (codes "X-Ghost-Transition") next resource), st')
        ]
      ]

  unfoldable pub after_resource : MockState → ℕ → MockQuery → Reply × MockState
  unfolding transition_request with_transition after_transition
  after_resource st now q = elim (transition_request q) [
    | none ↦ after_transition st q
    | some t ↦ with_transition st now q t
  ]

  unfoldable pub after_sequence : MockState → ℕ → MockQuery → Reply × MockState
  unfolding resource_match after_resource
  after_sequence st now q = elim (resource_match st q) [
    | none ↦ after_resource st now q
    | some resource ↦
        (served (resource_answer (codes "X-Ghost-Resource") (codes "true") resource), st)
  ]

  unfoldable pub after_exact : MockState → ℕ → MockQuery → Reply × MockState
  unfolding find_sequence_response after_sequence
  after_exact st now q =
      let r = find_sequence_response wide st.sequences st.sequence_counters q.method q.path_query in
      let st' = record st { sequence_counters = r.1 } in
      elim r.0 [
        | none ↦ after_sequence st' now q
        | some response ↦ (served (sequence_answer response), st')
      ]

  unfoldable pub handle_mock : MockState → ℕ → MockQuery → Reply × MockState
  unfolding exact_match after_exact
  handle_mock st now q = elim (exact_match st q) [
    | none ↦ after_exact st now q
    | some entry ↦ (served (entry_answer (codes "X-Ghost-Mock") entry), st)
  ]
