-- ===== src/Upstream.antt =====
-- The call of an upstream (src/main.rs), in LEARN and in PASSTHROUGH mode. The client is the argument
-- `send`.
use gostly_ai_proxy.Base.{
  ℕ, Bool, not, Option, List, [], ◌∷◌, ◌++◌, Text, text_eq, ◌==◌, codes, any, retain, if◌then◌else◌,
}
use mathlib.Core.Option.{get_or}
use gostly_ai_proxy.Base.HashMap
use gostly_ai_proxy.Base.HashMap.{HashMap}
use gostly_ai_proxy.Http.{Bytes}
use gostly_ai_proxy.State.{Routed}
use gostly_ai_proxy.Response.{HttpRules}

pub record UpstreamRequest : Type 0 where
  pub method : Text
  pub target : Text
  pub headers : List (Text × Bytes)
  pub body : Bytes

-- What comes back: `send` fails, or the body does, or a response with each value's `to_str().ok()`.
pub data Sent : Type 0 where
  refused : Sent
  broken : Sent
  replied : ℕ → List (Text × Option Text) → Bytes → Sent

-- The headers that are not forwarded.
abbrev pub is_skipped : Text → Bool
is_skipped name =
    any (λ n. n == name)
      (codes "host" ∷ codes "transfer-encoding" ∷ codes "connection" ∷ codes "keep-alive" ∷ [])

unfoldable pub forwarded_headers : List (Text × Bytes) → List (Text × Bytes)
forwarded_headers headers = retain (λ (h : Text × Bytes). not (is_skipped h.0)) headers

-- The request that is sent, its body as it came.
unfoldable pub upstream_request : {F : Type 0} → HttpRules → Routed F → UpstreamRequest
unfolding forwarded_headers
upstream_request rules r = record {
  method = if rules.is_method r.asked.method then r.asked.method else codes "GET";
  target = r.resolved_upstream ++ r.asked.path_query;
  headers = forwarded_headers r.headers.entries;
  body = r.bytes;
}

-- The loop that collects the response's headers: a later value of a name wins.
unfoldable pub collect_headers : HashMap Text Text → List (Text × Option Text) → HashMap Text Text
collect_headers m [] = m
collect_headers m ((k, v) ∷ headers) = collect_headers (HashMap.insert m k (get_or v [])) headers
