-- ===== src/Chaos/Draw/Bounds.antt =====
-- What the draws of src/chaos.rs can give, and when the state of src/markov_chaos.rs changes.
use gostly_ai_proxy.Base.{
  ℕ, ◌+◌, ◌-◌, ◌%◌, ◌^◌, ◌≤◌, ◌<◌, ◌≡◌, refl, sym, Bool, true, false, some, List, [], ◌∷◌, arith,
  Text, text_eq, ◌==◌, codes, ltb, nat_beq, min, max, Bool-cases, inl, inr, if◌then◌else◌,
}
use mathlib.Core.Path.{subst}
use mathlib.Core.Option.{get_or, some-injective, none-ne-some}
use gostly_ai_proxy.Chaos.Config.{
  ChaosSettings, LatencyJitter, ErrorCodeEntry, MarkovConfig, degraded,
}
use gostly_ai_proxy.Chaos.Draw.{
  Floats, DrawnError, unit_draw, compute_latency_ms, drawn_of, total_from, pick, legacy_error,
  draw_from, draw_error, new, step_with_rng,
}

pub data Listed {A : Type 0} (x : A) : List A → Type 0 where
  first : (xs : List A) → Listed x (x ∷ xs)
  further : (y : A) (xs : List A) → Listed x xs → Listed x (y ∷ xs)

module _ {F : Type 0} (f : Floats F) where
  -- An error that the configuration names: one of its dictionary, or the single one.
  pub data IsConfigured (cc : ChaosSettings F) : DrawnError → Type 0 where
    of_codes :
        (e : ErrorCodeEntry F)
        → Listed e cc.error_codes
        → IsConfigured cc
            (record { status = e.status; body = get_or e.body []; headers = get_or e.headers [] })
    of_status :
        0 < cc.error_status
        → IsConfigured cc (record { status = cc.error_status; body = cc.error_body; headers = [] })

  abbrev Picked : List (ErrorCodeEntry F) → DrawnError → Type 0
  Picked es d = (e : ErrorCodeEntry F) × Listed e es × (d ≡ drawn_of f e)

  Picked-if :
      (b : Bool) (es : List (ErrorCodeEntry F)) (x y : DrawnError)
      → Picked es x
      → Picked es y
      → Picked es (if b then x else y)
  Picked-if true es x y h k = h
  Picked-if false es x y h k = k

  pick-Picked :
      (r acc : F) (e : ErrorCodeEntry F) (es : List (ErrorCodeEntry F))
      → Picked (e ∷ es) (pick f r acc e es)
  unfolding pick
  pick-Picked r acc e [] = (e, first [], refl)
  pick-Picked r acc e (e' ∷ es) =
      let acc' = f.add acc (f.max_of e.weight f.zero) in
      let (x, listed, same) = pick-Picked r acc' e' es in
      Picked-if (f.le r acc') (e ∷ e' ∷ es) _ _ (e, first (e' ∷ es), refl)
        (x, further e (e' ∷ es) listed, same)

  legacy-IsConfigured :
      (cc : ChaosSettings F) (d : DrawnError) → legacy_error f cc ≡ some d → IsConfigured cc d
  legacy-IsConfigured cc d h = elim (Bool-cases (ltb 0 cc.error_status)) [
    | inl set ↦
        let same = some-injective _ d (rw set at h) in rw (← same) (of_status (ground arith))
    | inr unset ↦ absurd (none-ne-some d (rw unset at h))
  ]

  draw_from-IsConfigured :
      (cc : ChaosSettings F) (r : F) (es : List (ErrorCodeEntry F)) (d : DrawnError)
      → cc.error_codes ≡ es
      → draw_from f cc r es ≡ some d
      → IsConfigured cc d
  draw_from-IsConfigured cc r [] d same h = legacy-IsConfigured cc d h
  draw_from-IsConfigured cc r (e ∷ es) d same h =
      let total = total_from f f.zero (e ∷ es) in
      elim (Bool-cases (f.lt f.zero total)) [
        | inl positive ↦
            let (x, listed, picked) = pick-Picked (f.mul r total) f.zero e es in
            let drawn = some-injective _ d (rw positive at h) in
            rw (← drawn, picked)
              (of_codes x (subst (λ (l : List (ErrorCodeEntry F)). Listed x l) (sym same) listed))
        | inr zero ↦ legacy-IsConfigured cc d (rw zero at h)
      ]

  -- An injected error is one that the operator wrote down: whatever the draw, the error is that of
  -- an entry of the dictionary, with its status, body and headers, or the single configured one,
  -- whose status is then not 0.
  pub draw_error-IsConfigured :
      (cc : ChaosSettings F) (r : F) (d : DrawnError)
      → draw_error f cc r ≡ some d
      → IsConfigured cc d
  unfolding draw_error
  draw_error-IsConfigured cc r d h = draw_from-IsConfigured cc r cc.error_codes d refl h

  within :
      (lo hi x : ℕ)
      → lo ≤ hi
      → x ≤ hi - lo
      → hi < 2 ^ 64
      → (lo ≤ (lo + x) % 2 ^ 64) × ((lo + x) % 2 ^ 64 ≤ hi)
  within lo hi x h k fits = (omega (arith, h, k, fits), omega (arith, h, k, fits))

  -- What is known of the draws: a value of `rand::random()` is in the unit interval, so is half the
  -- sum of two, and a share of a span of at most 2^53 rounds to no more than the span.
  pub record UnitLaws (IsUnit : F → Type 0) : Type 0 where
    pub halved : (a b : F) → IsUnit a → IsUnit b → IsUnit (f.div (f.add a b) f.two)
    pub share : (n : ℕ) (r : F) → IsUnit r → n ≤ 2 ^ 53 → f.round_u64 (f.mul (f.of_u64 n) r) ≤ n

  unit_draw-IsUnit :
      (IsUnit : F → Type 0) (laws : UnitLaws IsUnit) (distribution : Text) (r1 r2 : F)
      → IsUnit r1
      → IsUnit r2
      → IsUnit (unit_draw f distribution r1 r2)
  unit_draw-IsUnit IsUnit laws distribution r1 r2 u1 u2 =
      elim (Bool-cases (distribution == codes "normal")) [
        | inl normal ↦ rw normal (laws.halved r1 r2 u1 u2)
        | inr other ↦ rw other u1
      ]

  -- A jittered latency is within its bounds, whichever of the two is the greater: where the maximum
  -- is not 0, both fit a u64 and their distance is at most 2^53, draws in the unit interval give a
  -- latency from the lesser to the greater, of the uniform and of the normal distribution.
  pub compute_latency_ms_bounds :
      (IsUnit : F → Type 0) (laws : UnitLaws IsUnit) (cc : ChaosSettings F) (j : LatencyJitter)
      (r1 r2 : F)
      → IsUnit r1
      → IsUnit r2
      → cc.latency_jitter ≡ some j
      → 0 < j.max_ms
      → max j.max_ms j.min_ms < 2 ^ 64
      → max j.max_ms j.min_ms - min j.min_ms j.max_ms ≤ 2 ^ 53
      → (min j.min_ms j.max_ms ≤ compute_latency_ms f cc r1 r2)
        × (compute_latency_ms f cc r1 r2 ≤ max j.max_ms j.min_ms)
  unfolding compute_latency_ms
  compute_latency_ms_bounds IsUnit laws cc j r1 r2 u1 u2 jitter nonzero fits span =
      let u = unit_draw-IsUnit IsUnit laws j.distribution r1 r2 u1 u2 in
      let hi = max j.max_ms j.min_ms in
      let lo = min j.min_ms j.max_ms in
      let s = laws.share (hi - lo) _ u span in
      let set : nat_beq j.max_ms 0 ≡ false = ground arith in
      rw (jitter, set) (within lo hi _ (omega arith) s fits)

  -- The comment says that a service starts healthy, but its first dwell has expired at once: the
  -- first step after the state was made, at that time or later, is to the degraded state, for every
  -- configuration and every draw.
  pub step_with_rng-new :
      (cfg : MarkovConfig F) (now after : ℕ) (u : F)
      → now ≤ after
      → ((step_with_rng f cfg after u (new f now)).0 ≡ degraded)
        × ((step_with_rng f cfg after u (new f now)).1 ≡ true)
  unfolding step_with_rng
  step_with_rng-new cfg now after u h =
      let expired : ltb after now ≡ false = ground arith in rw (expired, step_with_rng) (refl, refl)
