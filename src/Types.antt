-- ===== src/Types.antt =====
-- The record and enum types of src/main.rs that every part of the proxy shares: modes, recorded
-- requests and responses, mock entries, sequences, and the runtime configuration.
use gostly_ai_proxy.Base.{ℕ, Bool, Option, List, Text, codes}
use gostly_ai_proxy.Base.HashMap.{HashMap}

-- `GLOBAL_TENANT`.
abbrev pub global_tenant : Text
global_tenant = codes "_global"

pub data Mode : Type 0 where
  learn mock passthrough transitioning : Mode

pub record MockRequest : Type 0 where
  pub method : Text
  pub uri : Text
  pub body : Text

pub record MockResponse : Type 0 where
  pub status : ℕ
  pub headers : HashMap Text Text
  pub body : Text
  pub latency_ms : ℕ

pub record MockEntry : Type 0 where
  pub id : Text
  pub timestamp : Text
  pub request : MockRequest
  pub response : MockResponse
  pub service_id : Option Text
  pub tenant : Text
  pub workload_class : Text

pub record SequenceResponse : Type 0 where
  pub status : ℕ
  pub headers : HashMap Text Text
  pub body : Text
  pub latency_ms : ℕ

pub record MockSequence : Type 0 where
  pub id : Text
  pub method : Text
  pub uri : Text
  pub responses : List SequenceResponse
  pub loop_responses : Bool

pub record RuntimeConfig : Type 0 where
  pub unmatched_status : ℕ
  pub unmatched_body : Text
