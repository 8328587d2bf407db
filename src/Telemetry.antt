-- ===== src/Telemetry.antt =====
-- The collector of src/telemetry.rs, and `fire_onboarding_event` of src/main.rs, which counts a
-- milestone once per service. Samples are `f64`, a type of which nothing is used: it is the
-- parameter `F`.
pub mod Bounds
use gostly_ai_proxy.Base.{
  ℕ, ◌+◌, ◌%◌, ◌^◌, Bool, true, false, Option, none, some, List, [], ◌∷◌, ◌++◌, Text, text_eq, ◌==◌,
  codes, ltb, length, any, if◌then◌else◌,
}
use mathlib.Core.Option.{get_or}
use gostly_ai_proxy.Base.HashMap
use gostly_ai_proxy.Base.HashMap.{HashMap}
use gostly_ai_proxy.Library.{service_key}

abbrev pub agent_boots_total : Text
agent_boots_total = codes "gostly_agent_boots_total"

abbrev pub first_request_proxied_total : Text
first_request_proxied_total = codes "gostly_first_request_proxied_total"

abbrev pub first_mock_recorded_total : Text
first_mock_recorded_total = codes "gostly_first_mock_recorded_total"

abbrev pub first_mock_served_total : Text
first_mock_served_total = codes "gostly_first_mock_served_total"

abbrev pub mock_fidelity_ms : Text
mock_fidelity_ms = codes "gostly_mock_fidelity_ms"

pub record TelemetryCollector (F : Type 0) : Type 0 where
  pub counters : HashMap Text ℕ
  pub observations : HashMap Text (List F)

-- A bucket holds at most 1024 samples.
abbrev pub push_sample : {F : Type 0} → List F → F → List F
push_sample bucket value = if ltb (length bucket) 1024 then bucket ++ value ∷ [] else bucket

module _ {F : Type 0} where
  abbrev pub new : TelemetryCollector F
  new = record { counters = []; observations = [] }

  -- A counter is a `u64`, and the release build wraps.
  unfoldable pub inc_counter : TelemetryCollector F → Text → ℕ → TelemetryCollector F
  inc_counter t name n = record t {
    counters =
        HashMap.insert t.counters name ((get_or (HashMap.get t.counters name) 0 + n) % 2 ^ 64);
  }

  unfoldable pub set_counter : TelemetryCollector F → Text → ℕ → TelemetryCollector F
  set_counter t name value = record t { counters = HashMap.insert t.counters name value }

  unfoldable pub record_observation : TelemetryCollector F → Text → F → TelemetryCollector F
  record_observation t name value = record t {
    observations =
        HashMap.insert t.observations name
          (push_sample (get_or (HashMap.get t.observations name) []) value);
  }

  -- What is drained, and the collector that is left.
  unfoldable pub drain_observations :
      TelemetryCollector F → HashMap Text (List F) × TelemetryCollector F
  drain_observations t = (t.observations, record t { observations = [] })

  abbrev pub count_event : TelemetryCollector F → Text → TelemetryCollector F
  count_event t event_type =
      if event_type == codes "first_request_proxied"
      then inc_counter t first_request_proxied_total 1
      else if event_type == codes "first_mock_recorded"
      then inc_counter t first_mock_recorded_total 1
      else if event_type == codes "first_mock_served"
      then inc_counter t first_mock_served_total 1
      else t

  -- The set of services seen so far is a list; the new set and collector are returned.
  unfoldable pub fire_onboarding_event :
      TelemetryCollector F → Text → Option Text → List Text → List Text × TelemetryCollector F
  unfolding inc_counter
  fire_onboarding_event t event_type service_id seen_set =
      let svc = service_key service_id in
      if any (λ s. s == svc) seen_set
      then (seen_set, t)
      else (svc ∷ seen_set, count_event t event_type)
