-- ===== src/ResourceStore.antt =====
-- The store of captured resources (src/resource_store.rs). The map that the lock guards is passed
-- on, the clock and the outcome of a write are arguments, and an operation gives the state that it
-- hands to `persist_jsonl` beside its result.
pub mod Extract
pub mod Lookup
pub mod Tracked
pub mod Disk
use gostly_ai_proxy.Base.{
  ℕ, ◌+◌, Bool, true, false, Option, none, some, List, [], ◌∷◌, ◌++◌, Text, text_eq, pair_eq, ◌==◌,
  codes, length, if◌then◌else◌,
}
use mathlib.Core.Option.{get_or}
use mathlib.Core.List.{reverse}
use gostly_ai_proxy.Base.HashMap
use gostly_ai_proxy.Base.HashMap.{HashMap, values}
use gostly_ai_proxy.Json.{Json, Fields, get_field, insert_field}
use gostly_ai_proxy.Statechart.{
  StateMachine, StatechartRegistry, default_status_field, get, apply_in, is_some,
}
use gostly_ai_proxy.ResourceStore.Extract.{extract_id, strip_s}

-- `SystemTime` counts from the epoch.
pub record ResourceState : Type 0 where
  pub collection : Text
  pub id : Text
  pub body : Json
  pub statechart : Option Text
  pub current_state : Option Text
  pub created_at : ℕ
  pub updated_at : ℕ
  pub status : ℕ
  pub content_type : Text

-- `default_status` and `default_content_type`, for lines written without those fields.
abbrev pub default_status : ℕ
default_status = 200

abbrev pub default_content_type : Text
default_content_type = codes "application/json"

abbrev pub ResourceKey : Type 0
ResourceKey = Text × Text

abbrev pub ServiceResources : Type 0
ServiceResources = HashMap ResourceKey ResourceState

pub data ResourceStoreError : Type 0 where
  id_not_found : Text → ResourceStoreError
  -- An I/O failure, by its message. No operation of the store returns it.
  io : Text → ResourceStoreError

pub data CaptureResult : Type 0 where
  ok : Text → CaptureResult
  err : ResourceStoreError → CaptureResult

pub record ResourceStore : Type 0 where
  pub by_service : HashMap Text ServiceResources
  pub data_dir : Text
  pub registry : Option StatechartRegistry

abbrev pub new : Text → Option StatechartRegistry → ResourceStore
new data_dir registry = record { by_service = []; data_dir = data_dir; registry = registry }

abbrev pub get_in : HashMap Text ServiceResources → Text → ResourceKey → Option ResourceState
get_in map service_id key = elim (HashMap.get map service_id) [
  | none ↦ none
  | some svc ↦ HashMap.get svc key
]

unfoldable pub lookup : ResourceStore → Text → Text → Text → Option ResourceState
lookup store service_id collection id = get_in store.by_service service_id (collection, id)

abbrev count : List ServiceResources → ℕ
count [] = 0
count (svc ∷ svcs) = length svc + count svcs

unfoldable pub len : ResourceStore → ℕ
len store = count (values store.by_service)

unfoldable pub list : ResourceStore → Text → List ResourceState
list store service_id = values (get_or (HashMap.get store.by_service service_id) [])

-- The machine of a collection: by its name, else by its name less a final `s`.
unfoldable pub machine_for : StatechartRegistry → Text → Option Text
machine_for reg collection =
    if is_some (get reg collection) then some collection else elim (strip_s collection) [
      | none ↦ none
      | some singular ↦ if is_some (get reg singular) then some singular else none
    ]

abbrev pub bound_machine : Option StatechartRegistry → Text → Option Text
bound_machine none collection = none
bound_machine (some reg) collection = machine_for reg collection

abbrev pub initial_of : Option StateMachine → Option Text
initial_of none = none
initial_of (some sm) = some sm.initial

abbrev pub initial_state : Option StatechartRegistry → Option Text → Option Text
initial_state (some reg) (some m) = initial_of (get reg m)
initial_state _ _ = none

-- `map.entry(service_id).or_default().insert(key, state)`.
abbrev pub put_in :
    HashMap Text ServiceResources
    → Text
    → ResourceKey
    → ResourceState
    → HashMap Text ServiceResources
put_in map service_id key state =
    HashMap.insert map service_id
      (HashMap.insert (get_or (HashMap.get map service_id) []) key state)

-- What is given to `persist_jsonl`: nothing where persistence is off.
abbrev pub persisted : ResourceStore → ResourceState → Option ResourceState
persisted store state = if store.data_dir == [] then none else some state

unfoldable pub captured : ResourceStore → ℕ → Text → Text → Json → Option Text → ℕ → ResourceState
unfolding machine_for
captured store now collection id body content_type status =
    let statechart = bound_machine store.registry collection in
    record {
      collection = collection;
      id = id;
      body = body;
      statechart = statechart;
      current_state = initial_state store.registry statechart;
      created_at = now;
      updated_at = now;
      status = status;
      content_type = get_or content_type default_content_type;
    }

unfoldable pub capture_create :
    ResourceStore
    → ℕ
    → Text
    → Text
    → Json
    → Option Text
    → Option Text
    → ℕ
    → CaptureResult × ResourceStore × Option ResourceState
unfolding captured
capture_create store now service_id collection body id_field_hint content_type status =
    elim (extract_id body collection id_field_hint) [
      | none ↦ (err (id_not_found collection), store, none)
      | some id ↦
          let state = captured store now collection id body content_type status in
          (
            ok id,
            record store { by_service = put_in store.by_service service_id (collection, id) state },
            persisted store state,
          )
    ]

abbrev status_field_of : Option StateMachine → Text
status_field_of none = default_status_field
status_field_of (some sm) = sm.status_field

-- The status field of the body is set only where it is a string already.
unfoldable pub set_status : Json → Text → Text → Json
set_status (Json.object m) status_field next = elim (get_field m status_field) [
  | some (Json.string _) ↦ Json.object (insert_field m status_field (Json.string next))
  | _ ↦ Json.object m
]
set_status body status_field next = body

-- The resource after a transition, where its machine has one.
unfoldable pub transitioned :
    StatechartRegistry → ℕ → Text → ResourceState → Option (Text × ResourceState)
unfolding set_status
transitioned reg now action state = elim state.statechart [
  | none ↦ none
  | some machine_id ↦ elim state.current_state [
    | none ↦ none
    | some current ↦ elim (apply_in reg machine_id current action) [
      | none ↦ none
      | some next ↦ some (
        next,
        record state {
          current_state = some next;
          updated_at = now;
          body = set_status state.body (status_field_of (get reg machine_id)) next;
        },
      )
    ]
  ]
]

-- The resource under the lock, if there is one, and the write.
unfoldable pub advance_with :
    ResourceStore
    → ℕ
    → Text
    → ResourceKey
    → Text
    → StatechartRegistry
    → Option ResourceState
    → Option Text × ResourceStore × Option ResourceState
unfolding transitioned
advance_with store now service_id key action reg none = (none, store, none)
advance_with store now service_id key action reg (some state) =
    elim (transitioned reg now action state) [
      | none ↦ (none, store, none)
      | some (next, state') ↦ (
        some next,
        record store { by_service = put_in store.by_service service_id key state' },
        persisted store state',
      )
    ]

-- `self.registry.as_ref()?`, then the block of the write lock. The lock is taken again to read what
-- was just written; nothing here runs in between.
unfoldable pub transition_with :
    Option StatechartRegistry
    → ResourceStore
    → ℕ
    → Text
    → ResourceKey
    → Text
    → Option Text × ResourceStore × Option ResourceState
unfolding advance_with
transition_with none store now service_id key action = (none, store, none)
transition_with (some reg) store now service_id key action =
    advance_with store now service_id key action reg (get_in store.by_service service_id key)

unfoldable pub apply_transition :
    ResourceStore
    → ℕ
    → Text
    → Text
    → Text
    → Text
    → Option Text × ResourceStore × Option ResourceState
unfolding transition_with
apply_transition store now service_id collection id action =
    transition_with store.registry store now service_id (collection, id) action

unfoldable pub delete : ResourceStore → Text → Text → Text → Bool × ResourceStore
delete store service_id collection id = elim (HashMap.get store.by_service service_id) [
  | none ↦ (false, store)
  | some svc ↦ (
    is_some (HashMap.get svc (collection, id)),
    record store {
      by_service = HashMap.insert store.by_service service_id (HashMap.remove svc (collection, id));
    },
  )
]
