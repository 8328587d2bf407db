-- ===== src/Examples/Draws.antt =====
-- The theorems about chaos draws and telemetry at concrete configurations, with natural numbers for
-- floating point ones.
use gostly_ai_proxy.Base.{
  ℕ, zero, suc, ◌*◌, ◌≤◌, ◌≡◌, refl, true, none, some, [], ◌∷◌, arith, codes, text_eq,
}
use gostly_ai_proxy.Chaos.Config.{ChaosSettings, LatencyJitter, uniform, degraded}
use gostly_ai_proxy.Chaos.Draw.{
  DrawnError, compute_latency_ms, draw_error, default_markov, new, step_with_rng,
}
use gostly_ai_proxy.Chaos.Draw.Bounds.{
  IsConfigured, UnitLaws, draw_error-IsConfigured, compute_latency_ms_bounds, step_with_rng-new,
}
use gostly_ai_proxy.Examples.Servers.{floats}

abbrev jitter : LatencyJitter
jitter = record { min_ms = 300; max_ms = 100; distribution = codes "normal" }

abbrev config : ChaosSettings ℕ
config = record {
  enabled = true;
  latency_ms = 0;
  error_rate = 1;
  error_status = 500;
  error_body = [];
  latency_jitter = some jitter;
  error_codes =
      record { status = 502; weight = 1; body = none; headers = none }
      ∷ record { status = 503; weight = 2; body = some (codes "busy"); headers = none }
      ∷ [];
  modes = [];
  preset = none;
  chaos_model = uniform;
  markov = none;
}

share : (n r : ℕ) → r ≤ 1 → n * r ≤ n
share n zero h = omega arith
share n (suc zero) h = omega arith
share n (suc (suc r)) h = absurd (omega (arith, h))

unit_laws : UnitLaws floats (λ r. r ≤ 1)
unit_laws = record { halved = λ a b h k. omega (arith, h, k); share = λ n r u h. share n r u }

compute_latency_ms_bounds_example :
    (100 ≤ compute_latency_ms floats config 1 1) × (compute_latency_ms floats config 1 1 ≤ 300)
compute_latency_ms_bounds_example =
    compute_latency_ms_bounds floats (λ r. r ≤ 1) unit_laws config jitter 1 1 (omega arith)
      (omega arith) refl (omega arith) (omega arith) (omega arith)

abbrev busy : DrawnError
busy = record { status = 503; body = codes "busy"; headers = [] }

drawn : draw_error floats config 1 ≡ some busy
unfolding draw_error
drawn = refl

draw_error-IsConfigured_example : IsConfigured floats config busy
draw_error-IsConfigured_example = draw_error-IsConfigured floats config 1 busy drawn

step_with_rng-new_example :
    ((step_with_rng floats (default_markov floats) 12 0 (new floats 10)).0 ≡ degraded)
    × ((step_with_rng floats (default_markov floats) 12 0 (new floats 10)).1 ≡ true)
step_with_rng-new_example = step_with_rng-new floats (default_markov floats) 10 12 0 (omega arith)
