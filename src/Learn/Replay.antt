-- ===== src/Learn/Replay.antt =====
-- From LEARN to MOCK (src/main.rs): what was recorded of a response is what the same request is
-- answered with later, and a resource that a POST created is found by its GET.
use gostly_ai_proxy.Base.{
  ℕ, ◌≡◌, refl, ap, ◌∙◌, List, [], ◌++◌, Text, text_eq, codes, ltb, length, to_string,
  if◌then◌else◌, by_if, by_option,
}
use gostly_ai_proxy.Base.HashMap.{HashMap}
use gostly_ai_proxy.Http.{Bytes}
use gostly_ai_proxy.Types.{mock}
use gostly_ai_proxy.Proxy.{MockState, Answer}
use gostly_ai_proxy.Proxy.Replay.{with_published}
use gostly_ai_proxy.State.{Platform, AppState, Routed, Clock, Task}
use gostly_ai_proxy.Response.{Response}
use gostly_ai_proxy.Learn.{learned_entry, emit_event, count_learned, log_traffic, record_response}

module _ {F : Type 0} (p : Platform F) where
  -- The arguments of `serve_mock_response` that replay a response of an upstream.
  abbrev pub replayed : ℕ → ℕ → Bytes → ℕ → HashMap Text Text → Answer
  replayed limit status bytes latency_ms stored = record {
    status = status;
    headers = stored;
    body =
        if ltb limit (length bytes)
        then codes "[BODY_TRUNCATED: " ++ to_string (length bytes) ++ codes " bytes]"
        else p.from_utf8_lossy bytes;
    latency_ms = latency_ms;
    extra_key = codes "X-Ghost-Mock";
    extra_val = codes "true";
  }

  -- Of what MOCK mode reads, a recording changes the library alone, by its entry.
  pub record_response-mock :
      (st : AppState F) (r : Routed F) (clock : Clock) (status : ℕ) (headers : HashMap Text Text)
      (bytes : Bytes)
      → (record_response p st r clock status headers bytes).0.mock
        ≡ with_published (learned_entry p st r clock status headers bytes) st.mock
  unfolding record_response learned_entry
  record_response-mock st r clock status headers bytes =
      let entry = learned_entry p st r clock status headers bytes in
      let st1 = (emit_event p st r clock status).0 in
      let st2 = count_learned p st1 r clock in
      let emitted : st1.mock ≡ st.mock =
        by_if (λ (x : AppState F × List Task). x.0.mock ≡ st.mock) st.observability_enabled _
          (st, []) refl refl in
      let logged : (log_traffic p st2 r clock entry).0.mock ≡ st1.mock =
        by_option (λ (x : AppState F × List Task). x.0.mock ≡ st1.mock) r.asked.resolved_service_id
          (st2, []) _ refl (λ svc. refl) in
      ap (λ (m : MockState). with_published entry m) (logged ∙ emitted)
