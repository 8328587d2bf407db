-- ===== src/Telemetry/Bounds.antt =====
-- The bounds of src/telemetry.rs: counters stay in a `u64`, buckets stay at 1024 samples, and a
-- milestone is counted once for a service however often it is seen.
use gostly_ai_proxy.Base.{
  ℕ, ◌^◌, ◌≤◌, ◌<◌, ◌≡◌, refl, true, Option, List, [], ◌∷◌, arith, Text, text_eq, ◌==◌, eq_refl,
  codes, length, length-append, any, All, Option-cases, inl, inr, Bool-cases, by_if,
}
use mathlib.Core.Option.{get_or}
use gostly_ai_proxy.Base.HashMap
use gostly_ai_proxy.Base.HashMap.{HashMap, All-insert, All-get, get-insert}
use gostly_ai_proxy.Library.{service_key}
use gostly_ai_proxy.Telemetry.{
  TelemetryCollector, push_sample, inc_counter, record_observation, count_event,
  fire_onboarding_event, first_request_proxied_total, first_mock_recorded_total,
  first_mock_served_total,
}

module _ {F : Type 0} where
  -- Counters fit their width and buckets hold at most 1024 samples.
  abbrev pub IsBounded : TelemetryCollector F → Type 0
  IsBounded t =
      All (λ (p : Text × ℕ). p.1 < 2 ^ 64) t.counters
      × All (λ (p : Text × List F). length p.1 ≤ 1024) t.observations

  length-push_sample : (b : List F) (x : F) → length b ≤ 1024 → length (push_sample b x) ≤ 1024
  length-push_sample b x h = ground (arith, length-append b (x ∷ []))

  length-bucket :
      (m : HashMap Text (List F)) (name : Text)
      → All (λ (p : Text × List F). length p.1 ≤ 1024) m
      → length (get_or (HashMap.get m name) []) ≤ 1024
  length-bucket m name h = elim (Option-cases (HashMap.get m name)) [
    | inl absent ↦ rw absent (omega arith)
    | inr (b, found) ↦ rw found (All-get (λ (p : Text × List F). length p.1 ≤ 1024) m name h found)
  ]

  pub inc_counter-IsBounded :
      (t : TelemetryCollector F) (name : Text) (n : ℕ)
      → IsBounded t
      → IsBounded (inc_counter t name n)
  unfolding inc_counter
  inc_counter-IsBounded t name n (h, k) =
      (All-insert (λ (p : Text × ℕ). p.1 < 2 ^ 64) t.counters name _ (omega arith) h, k)

  pub record_observation-IsBounded :
      (t : TelemetryCollector F) (name : Text) (x : F)
      → IsBounded t
      → IsBounded (record_observation t name x)
  unfolding record_observation
  record_observation-IsBounded t name x (h, k) = (
    h,
    All-insert (λ (p : Text × List F). length p.1 ≤ 1024) t.observations name _
        (length-push_sample _ x (length-bucket t.observations name k)) k,
  )

  count_event-IsBounded :
      (t : TelemetryCollector F) (e : Text) → IsBounded t → IsBounded (count_event t e)
  count_event-IsBounded t e h =
      by_if IsBounded (e == codes "first_request_proxied") _ _
        (inc_counter-IsBounded t first_request_proxied_total 1 h)
        (by_if IsBounded (e == codes "first_mock_recorded") _ _
          (inc_counter-IsBounded t first_mock_recorded_total 1 h)
          (by_if IsBounded (e == codes "first_mock_served") _ _
            (inc_counter-IsBounded t first_mock_served_total 1 h) h))

  pub fire_onboarding_event-IsBounded :
      (t : TelemetryCollector F) (e : Text) (service_id : Option Text) (seen : List Text)
      → IsBounded t
      → IsBounded (fire_onboarding_event t e service_id seen).1
  unfolding fire_onboarding_event
  fire_onboarding_event-IsBounded t e service_id seen h =
      elim (Bool-cases (any (λ s. s == service_key service_id) seen)) [
        | inl known ↦ rw (known, fire_onboarding_event) h
        | inr new ↦ rw (new, fire_onboarding_event) (count_event-IsBounded t e h)
      ]

  known_again :
      (t u : TelemetryCollector F) (e : Text) (service_id : Option Text) (seen : List Text)
      → any (λ s. s == service_key service_id) seen ≡ true
      → fire_onboarding_event u e service_id seen ≡ (seen, u)
  unfolding fire_onboarding_event
  known_again t u e service_id seen h = rw (h, fire_onboarding_event) refl

  after_event :
      (t : TelemetryCollector F) (e : Text) (service_id : Option Text) (seen : List Text)
      → any (λ s. s == service_key service_id) (fire_onboarding_event t e service_id seen).0 ≡ true
  unfolding fire_onboarding_event
  after_event t e service_id seen =
      elim (Bool-cases (any (λ s. s == service_key service_id) seen)) [
        | inl known ↦ rw (known, fire_onboarding_event) known
        | inr new ↦
            rw (new, fire_onboarding_event) (ground (arith, eq_refl (service_key service_id)))
      ]

  -- A milestone counts once per service: after it was fired for a service, firing it again, with
  -- whatever the collector holds by then, changes neither the set of services seen nor the
  -- collector.
  fire_onboarding_event_once :
      (t u : TelemetryCollector F) (e : Text) (service_id : Option Text) (seen : List Text)
      → fire_onboarding_event u e service_id (fire_onboarding_event t e service_id seen).0
        ≡ ((fire_onboarding_event t e service_id seen).0, u)
  fire_onboarding_event_once t u e service_id seen =
      known_again t u e service_id (fire_onboarding_event t e service_id seen).0
        (after_event t e service_id seen)
