-- ===== src/Proxy/Created.antt =====
-- The failure that the resource store is there to mend: a resource created by a POST is found by the
-- GET of its id.
use gostly_ai_proxy.Base.{
  ℕ, ◌≡◌, refl, ap, ◌∙◌, Bool, true, false, Option, none, some, [], Text, text_eq, pair_eq, eq_refl,
  list_beq, codes, has,
}
use gostly_ai_proxy.Json.{Json}
use gostly_ai_proxy.ResourceStore.{
  ResourceKey, ResourceState, ResourceStore, lookup, captured, capture_create,
}
use gostly_ai_proxy.ResourceStore.Extract.{extract_id}
use gostly_ai_proxy.ResourceStore.Lookup.{lookup-capture_create}
use gostly_ai_proxy.Library.{service_key}
use gostly_ai_proxy.Sequence.{Counters, find_sequence_response}
use gostly_ai_proxy.Paths.{
  parse_collection_and_id, path_collection_segment, is_segment, is_in, non_id_segments, is_version,
}
use gostly_ai_proxy.Paths.Collection.{under, parse_collection_and_id-under}
use gostly_ai_proxy.Swap.{JsonSerde}
use gostly_ai_proxy.Proxy.{
  MockState, MockQuery, Reply, served, svc_key, exact_match, resource_target, resource_match,
  resource_answer, after_sequence, after_exact, handle_mock,
}

-- The GET of a path.
abbrev pub get_query : Text → Text → Option Text → MockQuery
get_query path_query tenant service_id = record {
  method = codes "GET";
  path_query = path_query;
  body_str = [];
  tenant = tenant;
  resolved_service_id = service_id;
}

-- A state after the capture of a response.
abbrev pub with_captured : MockState → ℕ → Option Text → Text → Json → Option Text → ℕ → MockState
with_captured st now service_id collection body content_type status = record st {
  resource_store =
      (capture_create st.resource_store now (service_key service_id) collection body none
        content_type status).1;
}

lookup-captured :
    (store : ResourceStore) (now : ℕ) (svc collection : Text) (body : Json)
    (content_type : Option Text) (status : ℕ) (id : Text)
    → extract_id body collection none ≡ some id
    → lookup
        (capture_create store now svc collection body none content_type status).1
        svc
        collection
        id
      ≡ some (captured store now collection id body content_type status)
lookup-captured store now svc collection body content_type status id found =
    lookup-capture_create store now svc collection body none content_type status id svc collection
      id found
    ∙ rw (eq_refl svc) (rw (eq_refl {A = ResourceKey} (collection, id)) refl)

get_target :
    (path_query tenant : Text) (service_id : Option Text) (t : Text × Text)
    → parse_collection_and_id path_query ≡ some t
    → resource_target (get_query path_query tenant service_id) ≡ some t
unfolding list_beq
get_target path_query tenant service_id t h = h

resource_match-known :
    (st : MockState) (q : MockQuery) (collection id : Text) (resource : ResourceState)
    → resource_target q ≡ some (collection, id)
    → lookup st.resource_store (svc_key q) collection id ≡ some resource
    → resource_match st q ≡ some resource
unfolding resource_match
resource_match-known st q collection id resource target known =
    rw (target, known, resource_match) refl

same_resource :
    (st : MockState) (counters : Counters) (q : MockQuery)
    → resource_match (record st { sequence_counters = counters }) q ≡ resource_match st q
unfolding resource_match
same_resource st counters q = refl

module _ (wide : ℕ → Bool) (json : JsonSerde) where
  passed_exact :
      (st : MockState) (now : ℕ) (q : MockQuery)
      → exact_match st q ≡ none
      → handle_mock wide json st now q ≡ after_exact wide json st now q
  unfolding handle_mock
  passed_exact st now q h = rw (h, handle_mock) refl

  passed_sequences :
      (st : MockState) (now : ℕ) (q : MockQuery)
      → (find_sequence_response wide st.sequences st.sequence_counters q.method q.path_query).0
        ≡ none
      → after_exact wide json st now q
        ≡ after_sequence wide json
            (record st {
              sequence_counters =
                  (find_sequence_response wide st.sequences st.sequence_counters q.method
                    q.path_query).1;
            })
            now
            q
  unfolding after_exact
  passed_sequences st now q h = rw (h, after_exact) refl

  read_resource :
      (st : MockState) (now : ℕ) (q : MockQuery) (resource : ResourceState)
      → resource_match st q ≡ some resource
      → after_sequence wide json st now q ≡ (
        served (resource_answer wide json (codes "X-Ghost-Resource") (codes "true") resource),
        st,
      )
  unfolding after_sequence
  read_resource st now q resource h = rw (h, after_sequence) refl

  handle_mock-resource :
      (st : MockState) (now : ℕ) (q : MockQuery) (resource : ResourceState)
      → exact_match st q ≡ none
      → (find_sequence_response wide st.sequences st.sequence_counters q.method q.path_query).0
        ≡ none
      → resource_match st q ≡ some resource
      → (handle_mock wide json st now q).0
        ≡ served (resource_answer wide json (codes "X-Ghost-Resource") (codes "true") resource)
  handle_mock-resource st now q resource no_exact no_sequence known =
      let r = find_sequence_response wide st.sequences st.sequence_counters q.method q.path_query in
      let st' : MockState = record st { sequence_counters = r.1 } in
      ap (λ (p : Reply × MockState). p.0)
        (passed_exact st now q no_exact
          ∙ passed_sequences st now q no_sequence
          ∙ read_resource st' now q resource (same_resource st r.1 q ∙ known))

  -- A response that a POST to a collection gave, captured with the id in it, is what the GET of
  -- that id under the collection is answered with: as a 200, with the body and content type
  -- captured. It holds where the path has no query, the id is one segment and not a reserved word
  -- or version, and neither an exact mock nor a sequence answers first.
  pub handle_mock-captured :
      (st : MockState) (now later : ℕ) (path collection id tenant : Text) (body : Json)
      (content_type service_id : Option Text) (status : ℕ)
      → path_collection_segment path ≡ some collection
      → extract_id body collection none ≡ some id
      → has b'?' path ≡ false
      → has b'?' id ≡ false
      → has b'/' id ≡ false
      → is_segment id ≡ true
      → is_in non_id_segments id ≡ false
      → is_version id ≡ false
      → exact_match
          (with_captured st now service_id collection body content_type status)
          (get_query (under path id) tenant service_id)
        ≡ none
      → (find_sequence_response wide st.sequences st.sequence_counters
          (codes "GET")
          (under path id)).0
        ≡ none
      → (handle_mock wide json
          (with_captured st now service_id collection body content_type status)
          later
          (get_query (under path id) tenant service_id)).0
        ≡ served (
            resource_answer wide json
              (codes "X-Ghost-Resource")
              (codes "true")
              (captured st.resource_store now collection id body content_type status))
  handle_mock-captured st now later path collection id tenant body content_type service_id status at
        found plain plain_id whole nonempty unreserved unversioned no_exact no_sequence =
      let q = get_query (under path id) tenant service_id in
      let st' = with_captured st now service_id collection body content_type status in
      let parsed =
        parse_collection_and_id-under path collection id at plain plain_id whole nonempty unreserved
          unversioned in
      handle_mock-resource st' later q
        (captured st.resource_store now collection id body content_type status) no_exact no_sequence
        (resource_match-known st' q collection id _
          (get_target (under path id) tenant service_id (collection, id) parsed)
          (lookup-captured st.resource_store now (service_key service_id) collection body
            content_type status id found))
