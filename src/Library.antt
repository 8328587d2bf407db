-- ===== src/Library.antt =====
-- The mock library of src/io.rs: per-file segments of per-service maps, the lookups, and the write
-- that LEARN mode and `POST /ghost/mocks` (src/main.rs) publish. An `Arc` is its value: a request
-- holds the library that it loaded, and a publication is a new one.
pub mod Owned
pub mod Lookup
pub mod Reload
pub mod Every
pub mod Overlap
use gostly_ai_proxy.Base.{
  ℕ, ◌+◌, Bool, true, false, Option, none, some, List, [], ◌∷◌, ◌++◌, map, Text, text_eq, triple_eq,
  ◌==◌, if◌then◌else◌, length, any,
}
use mathlib.Core.Option.{get_or}
use gostly_ai_proxy.Base.HashMap
use gostly_ai_proxy.Base.HashMap.{HashMap, keys, values}
use gostly_ai_proxy.Types.{global_tenant, MockEntry}

-- `(method, uri, tenant)`.
abbrev pub Key : Type 0
Key = Text × Text × Text

abbrev pub ServiceMocks : Type 0
ServiceMocks = HashMap Key MockEntry

pub record MockSegment : Type 0 where
  pub services : HashMap Text ServiceMocks

pub record MockLibrary : Type 0 where
  pub segments : HashMap Text MockSegment

abbrev pub empty_segment : MockSegment
empty_segment = record { services = [] }

abbrev pub empty_library : MockLibrary
empty_library = record { segments = [] }

abbrev pub key_of : MockEntry → Key
key_of e = (e.request.method, e.request.uri, e.tenant)

abbrev count_services : HashMap Text ServiceMocks → ℕ
count_services [] = 0
count_services ((s, m) ∷ services) = length m + count_services services

abbrev count_segments : List MockSegment → ℕ
count_segments [] = 0
count_segments (seg ∷ segs) = count_services seg.services + count_segments segs

unfoldable pub total_count : MockLibrary → ℕ
total_count lib = count_segments (values lib.segments)

-- `HashSet::insert` on the set of names seen so far.
abbrev add_name : List Text → Text → List Text
add_name names n = if any (λ m. m == n) names then names else n ∷ names

abbrev add_names : List Text → List Text → List Text
add_names names [] = names
add_names names (n ∷ ns) = add_names (add_name names n) ns

abbrev service_names : List Text → List MockSegment → List Text
service_names names [] = names
service_names names (seg ∷ segs) = service_names (add_names names (keys seg.services)) segs

unfoldable pub service_count : MockLibrary → ℕ
service_count lib = length (service_names [] (values lib.segments))

-- One round of the loop of `find_exact`: what the segment answers.
unfoldable pub find_in_segment : MockSegment → Text → Key → Option MockEntry
find_in_segment seg service_id key = elim (HashMap.get seg.services service_id) [
  | none ↦ none
  | some svc ↦ HashMap.get svc key
]

unfoldable pub find_in_segments : List MockSegment → Text → Key → Option MockEntry
find_in_segments [] service_id key = none
find_in_segments (seg ∷ segs) service_id key =
    let rest = find_in_segments segs service_id key in
    elim (find_in_segment seg service_id key) [ none ↦ rest | some entry ↦ some entry ]

unfoldable pub find_exact : MockLibrary → Text → Text → Text → Text → Option MockEntry
unfolding find_in_segments find_in_segment
find_exact lib service_id method uri tenant =
    find_in_segments (values lib.segments) service_id (method, uri, tenant)

-- `tenant.is_none_or(|want| want == t)`.
abbrev wants : Option Text → Text → Bool
wants none t = true
wants (some want) t = want == t

unfoldable pub entries_of : Option Text → ServiceMocks → List MockEntry
entries_of tenant [] = []
entries_of tenant (((method, uri, t), e) ∷ m) =
    let rest = entries_of tenant m in if wants tenant t then e ∷ rest else rest

unfoldable pub entries_in_segments : List MockSegment → Text → Option Text → List MockEntry
entries_in_segments [] service_id tenant = []
entries_in_segments (seg ∷ segs) service_id tenant =
    let rest = entries_in_segments segs service_id tenant in
    elim (HashMap.get seg.services service_id) [
      | none ↦ rest
      | some svc ↦ entries_of tenant svc ++ rest
    ]

unfoldable pub entries_for_service : MockLibrary → Text → Option Text → List MockEntry
unfolding entries_in_segments entries_of
entries_for_service lib service_id tenant =
    entries_in_segments (values lib.segments) service_id tenant

abbrev services_entries : Option Text → List ServiceMocks → List MockEntry
services_entries tenant [] = []
services_entries tenant (svc ∷ svcs) = entries_of tenant svc ++ services_entries tenant svcs

abbrev segments_entries : Option Text → List MockSegment → List MockEntry
segments_entries tenant [] = []
segments_entries tenant (seg ∷ segs) =
    services_entries tenant (values seg.services) ++ segments_entries tenant segs

unfoldable pub all_entries : MockLibrary → Option Text → List MockEntry
unfolding entries_of
all_entries lib tenant = segments_entries tenant (values lib.segments)

-- `services.entry(svc_id).or_default()`, then `insert`.
unfoldable pub add_to_segment : Text → MockEntry → MockSegment → MockSegment
add_to_segment svc_id entry seg =
    let svc_map = get_or (HashMap.get seg.services svc_id) [] in
    record {
      services = HashMap.insert seg.services svc_id (HashMap.insert svc_map (key_of entry) entry);
    }

-- The block that clones the library, inserts the entry and stores the clone.
unfoldable pub publish : Text → MockEntry → MockLibrary → MockLibrary
unfolding add_to_segment
publish svc_id entry lib =
    let segment = get_or (HashMap.get lib.segments svc_id) empty_segment in
    record { segments = HashMap.insert lib.segments svc_id (add_to_segment svc_id entry segment) }

-- The service under which an entry is stored: `service_id.unwrap_or(GLOBAL_TENANT)`.
abbrev pub service_key : Option Text → Text
service_key service_id = get_or service_id global_tenant

abbrev pub with_tenant : MockEntry → MockEntry
with_tenant entry = if entry.tenant == [] then record entry { tenant = global_tenant } else entry

-- The library that the handler stores, and the entry whose line it gives to the log.
unfoldable pub handle_create_mock : MockEntry → MockLibrary → MockLibrary × MockEntry
unfolding publish
handle_create_mock entry lib =
    let entry' = with_tenant entry in (publish (service_key entry'.service_id) entry' lib, entry')
