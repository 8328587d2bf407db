-- ===== src/Chaos/Config.antt =====
-- The configuration of chaos (src/chaos.rs, src/markov_chaos.rs). `f64` is the parameter `F`. A
-- configuration holds rules that hold configurations, so the two are one mutual block.
use gostly_ai_proxy.Base.{ℕ, Bool, Option, List, [], ◌∷◌, Text}
use gostly_ai_proxy.Base.HashMap.{HashMap}
use gostly_ai_proxy.Chaos.{EndpointRule}

pub data ChaosModel : Type 0 where
  uniform markov : ChaosModel

pub record MarkovConfig (F : Type 0) : Type 0 where
  pub mean_dwell_healthy_ms : ℕ
  pub mean_dwell_degraded_ms : ℕ
  pub degraded_error_rate : F
  pub degraded_latency_mult : F

pub record LatencyJitter : Type 0 where
  pub min_ms : ℕ
  pub max_ms : ℕ
  pub distribution : Text

pub record ErrorCodeEntry (F : Type 0) : Type 0 where
  pub status : ℕ
  pub weight : F
  pub body : Option Text
  pub headers : Option (HashMap Text Text)

-- The fields of `ChaosConfig` but `endpoint_rules`.
pub record ChaosSettings (F : Type 0) : Type 0 where
  pub enabled : Bool
  pub latency_ms : ℕ
  pub error_rate : F
  pub error_status : ℕ
  pub error_body : Text
  pub latency_jitter : Option LatencyJitter
  pub error_codes : List (ErrorCodeEntry F)
  pub modes : List Text
  pub preset : Option Text
  pub chaos_model : ChaosModel
  pub markov : Option (MarkovConfig F)

mutual
  pub data ChaosConfig (F : Type 0) : Type 0 where
    chaos_config : ChaosSettings F → ChaosRules F → ChaosConfig F

  -- `Vec<EndpointRule>`.
  pub data ChaosRules (F : Type 0) : Type 0 where
    no_rules : ChaosRules F
    endpoint_rule : Text → ChaosConfig F → ChaosRules F → ChaosRules F

module _ {F : Type 0} where
  abbrev pub settings : ChaosConfig F → ChaosSettings F
  settings (chaos_config s rules) = s

  abbrev pub rule_list : ChaosRules F → List (EndpointRule (ChaosConfig F))
  rule_list no_rules = []
  rule_list (endpoint_rule uri_pattern config rules) =
      record { uri_pattern = uri_pattern; config = config } ∷ rule_list rules

  abbrev pub endpoint_rules : ChaosConfig F → List (EndpointRule (ChaosConfig F))
  endpoint_rules (chaos_config s rules) = rule_list rules

pub data StateKind : Type 0 where
  healthy degraded : StateKind

-- `dwell_until` counts milliseconds from the epoch.
pub record MarkovState : Type 0 where
  pub kind : StateKind
  pub dwell_until : ℕ
