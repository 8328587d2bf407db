-- ===== src/Proxy/Preserves.antt =====
-- What MOCK mode can change of its state: the cursors of sequences, one resource by a transition, and
-- the list of unmatched requests. A property that those three keep is kept by the whole branch.
use gostly_ai_proxy.Base.{ℕ, Bool, some, Text, codes, by_if, by_option}
use gostly_ai_proxy.Types.{MockEntry}
use gostly_ai_proxy.Sequence.{Counters, find_sequence_response}
use gostly_ai_proxy.ResourceStore.{lookup, apply_transition}
use gostly_ai_proxy.Library.{entries_for_service}
use gostly_ai_proxy.Swap.{JsonSerde, find_smart_swap}
use gostly_ai_proxy.Proxy.{
  MockState, MockQuery, Reply, served, svc_key, exact_match, entry_answer, resource_match, miss,
  transition_request, after_transition, with_transition, after_resource, after_sequence,
  after_exact, handle_mock,
}

-- The three changes keep a property.
pub record IsKept {ℓ} (P : MockState → Type ℓ) : Type ℓ where
  pub counted : (st : MockState) (c : Counters) → P st → P (record st { sequence_counters = c })
  pub advanced :
      (st : MockState) (now : ℕ) (svc collection id action : Text)
      → P st
      → P (record st {
        resource_store = (apply_transition st.resource_store now svc collection id action).1;
      })
  pub noted : (st : MockState) (q : MockQuery) → P st → P (miss st q).1

module _ {ℓ} (wide : ℕ → Bool) (json : JsonSerde) (P : MockState → Type ℓ) (kept : IsKept P) where
  abbrev Holds : Reply × MockState → Type ℓ
  Holds r = P r.1

  after_transition-kept :
      (st : MockState) (q : MockQuery) → P st → P (after_transition wide json st q).1
  unfolding after_transition
  after_transition-kept st q h =
      by_if Holds st.smart_swap_enabled _ (miss st q)
        (by_option Holds
          (find_smart_swap wide json (entries_for_service st.library (svc_key q) (some q.tenant))
            q.method q.path_query q.body_str)
          (miss st q)
          (λ (entry : MockEntry). (served (entry_answer (codes "X-Ghost-SwapMatch") entry), st))
          (kept.noted st q h) (λ entry. h))
        (kept.noted st q h)

  with_transition-kept :
      (st : MockState) (now : ℕ) (q : MockQuery) (t : Text × Text × Text)
      → P st
      → P (with_transition wide json st now q t).1
  unfolding with_transition
  with_transition-kept st now q (collection, id, action) h =
      let r = apply_transition st.resource_store now (svc_key q) collection id action in
      let st' : MockState = record st { resource_store = r.1 } in
      let moved = kept.advanced st now (svc_key q) collection id action h in
      let onward = after_transition-kept st' q moved in
      by_option Holds r.0 (after_transition wide json st' q) _ onward (λ next.
        by_option Holds (lookup r.1 (svc_key q) collection id) (after_transition wide json st' q) _
          onward (λ resource. moved))

  after_resource-kept :
      (st : MockState) (now : ℕ) (q : MockQuery) → P st → P (after_resource wide json st now q).1
  unfolding after_resource
  after_resource-kept st now q h =
      by_option Holds (transition_request wide json q) (after_transition wide json st q)
        (with_transition wide json st now q) (after_transition-kept st q h)
        (λ t. with_transition-kept st now q t h)

  after_sequence-kept :
      (st : MockState) (now : ℕ) (q : MockQuery) → P st → P (after_sequence wide json st now q).1
  unfolding after_sequence
  after_sequence-kept st now q h =
      by_option Holds (resource_match st q) (after_resource wide json st now q) _
        (after_resource-kept st now q h) (λ resource. h)

  after_exact-kept :
      (st : MockState) (now : ℕ) (q : MockQuery) → P st → P (after_exact wide json st now q).1
  unfolding after_exact
  after_exact-kept st now q h =
      let r = find_sequence_response wide st.sequences st.sequence_counters q.method q.path_query in
      let st' : MockState = record st { sequence_counters = r.1 } in
      let counted = kept.counted st r.1 h in
      by_option Holds r.0 (after_sequence wide json st' now q) _
        (after_sequence-kept st' now q counted) (λ response. counted)

  pub handle_mock-kept :
      (st : MockState) (now : ℕ) (q : MockQuery) → P st → P (handle_mock wide json st now q).1
  unfolding handle_mock
  handle_mock-kept st now q h =
      by_option Holds (exact_match st q) (after_exact wide json st now q) _
        (after_exact-kept st now q h) (λ entry. h)
