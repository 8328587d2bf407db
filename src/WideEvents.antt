-- ===== src/WideEvents.antt =====
-- Wide events (src/wide_events.rs): one flat record for a recorded request. The counter of `next_id`
-- is an argument and a result; the clock is an argument.
use gostly_ai_proxy.Base.{
  ℕ, ◌+◌, ◌%◌, ◌^◌, Option, none, some, [], ◌∷◌, ◌++◌, Text, text_eq, ◌==◌, codes, to_string,
  if◌then◌else◌,
}
use gostly_ai_proxy.Base.HashMap.{HashMap}
use gostly_ai_proxy.Uri.{text_leb}
use gostly_ai_proxy.Json.{Json}

-- `WIDE_EVENTS_FILE`.
abbrev pub wide_events_file : Text
wide_events_file = codes "wide_events.jsonl"

-- `attrs` is a `BTreeMap`, the list of its entries by rising keys.
pub record WideEvent : Type 0 where
  pub id : Text
  pub ts : Text
  pub event_type : Text
  pub service_id : Option Text
  pub attrs : HashMap Text Json

-- `BTreeMap::insert`.
unfoldable pub insert_attr : HashMap Text Json → Text → Json → HashMap Text Json
unfolding text_leb
insert_attr [] k v = (k, v) ∷ []
insert_attr ((j, w) ∷ m) k v =
    let rest = insert_attr m k v in
    if j == k then (k, v) ∷ m else if text_leb j k then (j, w) ∷ rest else (k, v) ∷ (j, w) ∷ m

-- `we_{ts_ms}_{n}`, and the counter after it, which is a `u64`.
abbrev pub next_id : ℕ → ℕ → Text × ℕ
next_id ts_ms n = (codes "we_" ++ to_string ts_ms ++ b'_' ∷ to_string n, (n + 1) % 2 ^ 64)

abbrev with_service : Option Text → HashMap Text Json → HashMap Text Json
with_service none attrs = attrs
with_service (some svc) attrs = insert_attr attrs (codes "service_id") (Json.string svc)

-- The event, with the counter after it. `ts_ms` and `ts` are the clock's.
unfoldable pub request_recorded :
    ℕ → ℕ → Text → Option Text → Text → Text → ℕ → ℕ → Text → WideEvent × ℕ
unfolding insert_attr to_string
request_recorded counter ts_ms ts service_id method uri_pattern status latency_ms workload_class =
    let (id, counter') = next_id ts_ms counter in
    let a1 = insert_attr [] (codes "method") (Json.string method) in
    let a2 = insert_attr a1 (codes "uri_pattern") (Json.string uri_pattern) in
    let a3 = insert_attr a2 (codes "status") (Json.number (to_string status)) in
    let a4 = insert_attr a3 (codes "latency_ms") (Json.number (to_string latency_ms)) in
    let a5 = insert_attr a4 (codes "workload_class") (Json.string workload_class) in
    (
      record {
        id = id;
        ts = ts;
        event_type = codes "request_recorded";
        service_id = service_id;
        attrs = with_service service_id a5;
      },
      counter',
    )

-- The log after an event: its line and a line end. A failure to serialise drops the event.
abbrev pub append_event : (WideEvent → Option Text) → WideEvent → Text → Text
append_event print event content = elim (print event) [
  | none ↦ content
  | some line ↦ content ++ line ++ 10 ∷ []
]
