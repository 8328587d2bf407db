-- ===== src/Proxy/Replay.antt =====
-- What MOCK mode answers: an exact match comes first, and a miss alone is noted.
use gostly_ai_proxy.Base.{
  ℕ, ◌≡◌, refl, ap, ◌∙◌, Bool, some, List, [], ◌∷◌, ◌++◌, Text, text_eq, triple_eq, pair_eq,
  eq_refl, codes, by_if, by_option,
}
use gostly_ai_proxy.Types.{MockEntry, MockRequest}
use gostly_ai_proxy.Library.{
  MockLibrary, Key, key_of, publish, find_exact, entries_for_service, service_key,
}
use gostly_ai_proxy.Library.Owned.{IsOwned}
use gostly_ai_proxy.Library.Lookup.{find_exact-publish}
use gostly_ai_proxy.Sequence.{find_sequence_response}
use gostly_ai_proxy.ResourceStore.{lookup, apply_transition}
use gostly_ai_proxy.Swap.{JsonSerde, find_smart_swap}
use gostly_ai_proxy.Proxy.{
  MockState, MockQuery, Answer, Reply, served, missed, svc_key, with_body, exact_match,
  entry_answer, resource_match, miss, transition_request, after_transition, with_transition,
  after_resource, after_sequence, after_exact, handle_mock,
}

-- The request that an entry recorded, at the service it was recorded for.
abbrev pub query_of : MockEntry → MockQuery
query_of e = record {
  method = e.request.method;
  path_query = e.request.uri;
  body_str = e.request.body;
  tenant = e.tenant;
  resolved_service_id = e.service_id;
}

-- A state with an entry published.
abbrev pub with_published : MockEntry → MockState → MockState
with_published e st = record st { library = publish (service_key e.service_id) e st.library }

published_found :
    (e : MockEntry) (lib : MockLibrary)
    → IsOwned lib
    → find_exact
        (publish (service_key e.service_id) e lib)
        (service_key e.service_id)
        e.request.method
        e.request.uri
        e.tenant
      ≡ some e
published_found e lib owned =
    find_exact-publish (service_key e.service_id) e lib (service_key e.service_id) e.request.method
      e.request.uri e.tenant owned
    ∙ rw (eq_refl (service_key e.service_id)) (rw (eq_refl {A = Key} (key_of e)) refl)

pub exact_match-library :
    (st st' : MockState) (q : MockQuery)
    → st.library ≡ st'.library
    → exact_match st q ≡ exact_match st' q
unfolding exact_match
exact_match-library st st' q same =
    ap
      (λ (lib : MockLibrary).
        with_body q.body_str (find_exact lib (svc_key q) q.method q.path_query q.tenant))
      same

pub exact_match-published :
    (e : MockEntry) (st : MockState)
    → IsOwned st.library
    → exact_match (with_published e st) (query_of e) ≡ some e
unfolding exact_match
exact_match-published e st owned =
    ap (with_body e.request.body) (published_found e st.library owned)
    ∙ rw (eq_refl e.request.body) refl

module _ (wide : ℕ → Bool) (json : JsonSerde) where
  -- The exact match is asked first, and of the library alone.
  pub handle_mock-exact :
      (st : MockState) (now : ℕ) (q : MockQuery) (e : MockEntry)
      → exact_match st q ≡ some e
      → (handle_mock wide json st now q).0 ≡ served (entry_answer (codes "X-Ghost-Mock") e)
  unfolding handle_mock
  handle_mock-exact st now q e h = rw (h, handle_mock) refl

  -- A reply and the list of unmatched requests after it.
  pub data Noted (st : MockState) (q : MockQuery) : Reply × MockState → Type 0 where
    by_answer :
        (a : Answer) (st' : MockState) → st'.unmatched ≡ st.unmatched → Noted st q (served a, st')
    by_miss :
        (status : ℕ) (body : Text) (st' : MockState)
        → st'.unmatched
          ≡ st.unmatched ++ record { method = q.method; uri = q.path_query; body = q.body_str } ∷ []
        → Noted st q (missed status body, st')

  miss-Noted :
      (st0 st : MockState) (q : MockQuery) → st.unmatched ≡ st0.unmatched → Noted st0 q (miss st q)
  miss-Noted st0 st q same = by_miss _ _ _ (
      ap
        (λ (ms : List MockRequest).
          ms ++ record { method = q.method; uri = q.path_query; body = q.body_str } ∷ [])
        same)

  after_transition-Noted :
      (st0 st : MockState) (q : MockQuery)
      → st.unmatched ≡ st0.unmatched
      → Noted st0 q (after_transition wide json st q)
  unfolding after_transition
  after_transition-Noted st0 st q same =
      by_if (Noted st0 q) st.smart_swap_enabled _ (miss st q)
        (by_option (Noted st0 q)
          (find_smart_swap wide json (entries_for_service st.library (svc_key q) (some q.tenant))
            q.method q.path_query q.body_str)
          (miss st q)
          (λ (entry : MockEntry). (served (entry_answer (codes "X-Ghost-SwapMatch") entry), st))
          (miss-Noted st0 st q same) (λ entry. by_answer _ st same))
        (miss-Noted st0 st q same)

  with_transition-Noted :
      (st0 st : MockState) (now : ℕ) (q : MockQuery) (t : Text × Text × Text)
      → st.unmatched ≡ st0.unmatched
      → Noted st0 q (with_transition wide json st now q t)
  unfolding with_transition
  with_transition-Noted st0 st now q (collection, id, action) same =
      let r = apply_transition st.resource_store now (svc_key q) collection id action in
      let st' : MockState = record st { resource_store = r.1 } in
      let onward = after_transition-Noted st0 st' q same in
      by_option (Noted st0 q) r.0 (after_transition wide json st' q) _ onward (λ next.
        by_option (Noted st0 q) (lookup r.1 (svc_key q) collection id)
          (after_transition wide json st' q) _ onward (λ resource. by_answer _ st' same))

  after_resource-Noted :
      (st0 st : MockState) (now : ℕ) (q : MockQuery)
      → st.unmatched ≡ st0.unmatched
      → Noted st0 q (after_resource wide json st now q)
  unfolding after_resource
  after_resource-Noted st0 st now q same =
      by_option (Noted st0 q) (transition_request wide json q) (after_transition wide json st q)
        (with_transition wide json st now q) (after_transition-Noted st0 st q same)
        (λ t. with_transition-Noted st0 st now q t same)

  after_sequence-Noted :
      (st0 st : MockState) (now : ℕ) (q : MockQuery)
      → st.unmatched ≡ st0.unmatched
      → Noted st0 q (after_sequence wide json st now q)
  unfolding after_sequence
  after_sequence-Noted st0 st now q same =
      by_option (Noted st0 q) (resource_match st q) (after_resource wide json st now q) _
        (after_resource-Noted st0 st now q same) (λ resource. by_answer _ st same)

  after_exact-Noted :
      (st : MockState) (now : ℕ) (q : MockQuery) → Noted st q (after_exact wide json st now q)
  unfolding after_exact
  after_exact-Noted st now q =
      let r = find_sequence_response wide st.sequences st.sequence_counters q.method q.path_query in
      let st' : MockState = record st { sequence_counters = r.1 } in
      by_option (Noted st q) r.0 (after_sequence wide json st' now q) _
        (after_sequence-Noted st st' now q refl) (λ response. by_answer _ st' refl)

  -- Every request in MOCK mode is either answered, and then the list of unmatched requests is as it
  -- was, or missed, and then it has this request at its end and is otherwise as it was.
  pub handle_mock-Noted :
      (st : MockState) (now : ℕ) (q : MockQuery) → Noted st q (handle_mock wide json st now q)
  unfolding handle_mock
  handle_mock-Noted st now q =
      by_option (Noted st q) (exact_match st q) (after_exact wide json st now q) _
        (after_exact-Noted st now q) (λ entry. by_answer _ st refl)
