-- ===== src/Chaos/Draw.antt =====
-- The draws of chaos: `compute_latency_ms` and `draw_error` of src/chaos.rs, and the step of
-- src/markov_chaos.rs. What Rust computes on `f64` is the parameter `Floats`; what the random
-- generator gives, and the clock, are arguments.
pub mod Bounds
use gostly_ai_proxy.Base.{
  ℕ, ◌+◌, ◌-◌, ◌%◌, ◌^◌, Bool, true, false, Option, none, some, List, [], ◌∷◌, Text, text_eq, ◌==◌,
  codes, ltb, min, max, nat_beq, if◌then◌else◌,
}
use mathlib.Core.Option.{get_or}
use gostly_ai_proxy.Base.HashMap.{HashMap}
use gostly_ai_proxy.Chaos.Config.{
  ChaosSettings, LatencyJitter, ErrorCodeEntry, MarkovConfig, StateKind, healthy, degraded,
  MarkovState,
}

pub record Floats (F : Type 0) : Type 0 where
  pub zero : F
  pub one : F
  pub two : F
  -- `1e-9`, and the defaults `0.6` and `5.0` of src/chaos.rs.
  pub tiny : F
  pub rate_06 : F
  pub five : F
  -- `n as f64` for a `u64`.
  pub of_u64 : ℕ → F
  pub add : F → F → F
  pub sub : F → F → F
  pub mul : F → F → F
  pub div : F → F → F
  pub neg : F → F
  pub ln : F → F
  pub max_of : F → F → F
  -- `x < y` and `x <= y`.
  pub lt : F → F → Bool
  pub le : F → F → Bool
  -- `x as u64`, `x.round() as u64`, and `(x as i64).max(1)`.
  pub to_u64 : F → ℕ
  pub round_u64 : F → ℕ
  pub to_i64_max_one : F → ℕ

pub record DrawnError : Type 0 where
  pub status : ℕ
  pub body : Text
  pub headers : HashMap Text Text

module _ {F : Type 0} (f : Floats F) where
  -- The two values are those of `rand::random()`; the second is used by `normal` alone.
  abbrev unit_draw : Text → F → F → F
  unit_draw distribution r1 r2 =
      if distribution == codes "normal" then f.div (f.add r1 r2) f.two else r1

  -- The sum is a `u64`, and the release build wraps.
  unfoldable pub compute_latency_ms : ChaosSettings F → F → F → ℕ
  compute_latency_ms cc r1 r2 = elim cc.latency_jitter [
    | none ↦ cc.latency_ms
    | some j ↦
        let lo = min j.min_ms j.max_ms in
        let hi = max j.max_ms j.min_ms in
        if nat_beq j.max_ms 0
        then 0
        else (lo + f.round_u64 (f.mul (f.of_u64 (hi - lo)) (unit_draw j.distribution r1 r2)))
          % 2 ^ 64
  ]

  abbrev pub drawn_of : ErrorCodeEntry F → DrawnError
  drawn_of e = record { status = e.status; body = get_or e.body []; headers = get_or e.headers [] }

  abbrev pub total_from : F → List (ErrorCodeEntry F) → F
  total_from acc [] = acc
  total_from acc (e ∷ es) = total_from (f.add acc (f.max_of e.weight f.zero)) es

  -- The loop, and the last entry where rounding leaves it short.
  unfoldable pub pick : F → F → ErrorCodeEntry F → List (ErrorCodeEntry F) → DrawnError
  pick r acc e [] = drawn_of e
  pick r acc e (e' ∷ es) =
      let acc' = f.add acc (f.max_of e.weight f.zero) in
      let rest = pick r acc' e' es in if f.le r acc' then drawn_of e else rest

  abbrev legacy_error : ChaosSettings F → Option DrawnError
  legacy_error cc =
      if ltb 0 cc.error_status
      then some (record { status = cc.error_status; body = cc.error_body; headers = [] })
      else none

  -- `r` is the value of `rand::random()`.
  abbrev draw_from : ChaosSettings F → F → List (ErrorCodeEntry F) → Option DrawnError
  draw_from cc r [] = legacy_error cc
  draw_from cc r (e ∷ es) =
      let total = total_from f.zero (e ∷ es) in
      if f.lt f.zero total then some (pick (f.mul r total) f.zero e es) else legacy_error cc

  unfoldable pub draw_error : ChaosSettings F → F → Option DrawnError
  unfolding pick
  draw_error cc r = draw_from cc r cc.error_codes

  -- `MarkovConfig::default()`.
  abbrev pub default_markov : MarkovConfig F
  default_markov = record {
    mean_dwell_healthy_ms = 30000;
    mean_dwell_degraded_ms = 5000;
    degraded_error_rate = f.rate_06;
    degraded_latency_mult = f.five;
  }

  abbrev flip : StateKind → StateKind
  flip healthy = degraded
  flip degraded = healthy

  abbrev mean_ms : MarkovConfig F → StateKind → ℕ
  mean_ms cfg healthy = max cfg.mean_dwell_healthy_ms 1
  mean_ms cfg degraded = max cfg.mean_dwell_degraded_ms 1

  abbrev dwell_ms : MarkovConfig F → StateKind → F → ℕ
  dwell_ms cfg kind u =
      f.to_i64_max_one
        (f.mul (f.neg (f.of_u64 (mean_ms cfg kind))) (f.ln (f.max_of (f.sub f.one u) f.tiny)))

  -- `MarkovState::new`, at the time of the clock.
  abbrev pub new : ℕ → MarkovState
  new now = record { kind = healthy; dwell_until = now }

  -- The kind, whether it changed, and the state after the step.
  unfoldable pub step_with_rng :
      MarkovConfig F → ℕ → F → MarkovState → StateKind × Bool × MarkovState
  step_with_rng cfg now u st = if ltb now st.dwell_until then (st.kind, false, st) else (
    flip st.kind,
    true,
    record { kind = flip st.kind; dwell_until = now + dwell_ms cfg (flip st.kind) u },
  )
