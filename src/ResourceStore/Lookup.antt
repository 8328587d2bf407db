-- ===== src/ResourceStore/Lookup.antt =====
-- What the store answers after a capture, a transition or a deletion.
use gostly_ai_proxy.Base.{
  ◌≡◌, refl, ◌∙◌, ◌&&◌, ℕ, false, Option, none, some, [], arith, Text, text_eq, pair_eq, ◌==◌,
  eq_iff, eq_refl, Option-cases, inl, inr, if◌then◌else◌,
}
use mathlib.Core.Option.{get_or, none-ne-some, some-injective}
use gostly_ai_proxy.Base.HashMap
use gostly_ai_proxy.Base.HashMap.{HashMap, get-insert, get-empty}
use gostly_ai_proxy.Json.{Json}
use gostly_ai_proxy.Statechart.{StatechartRegistry, apply_in, get}
use gostly_ai_proxy.ResourceStore.Extract.{extract_id}
use gostly_ai_proxy.ResourceStore.{
  ResourceKey, ResourceState, ResourceStore, ServiceResources, err, id_not_found, get_in, put_in,
  lookup, captured, persisted, capture_create, transitioned, advance_with, transition_with,
  apply_transition, status_field_of, set_status,
}

pub get_in-put_in :
    (map : HashMap Text ServiceResources) (svc : Text) (key : ResourceKey) (st : ResourceState)
    (svc' : Text) (key' : ResourceKey)
    → get_in (put_in map svc key st) svc' key'
      ≡ (if svc == svc' && key == key' then some st else get_in map svc' key')
get_in-put_in map svc key st svc' key' =
    let old : ServiceResources = get_or (HashMap.get map svc) [] in
    ground (
      arith,
      get-insert map svc svc' (HashMap.insert old key st),
      get-insert old key key' st,
      get-empty {K = ResourceKey} {V = ResourceState} key',
      eq_iff svc svc',
    )

-- A response in whose body an id is found is found again under its service, collection and id, and
-- every other resource is what it was.
pub lookup-capture_create :
    (store : ResourceStore) (now : ℕ) (svc collection : Text) (body : Json)
    (hint content_type : Option Text) (status : ℕ) (id svc' collection' id' : Text)
    → extract_id body collection hint ≡ some id
    → lookup
        (capture_create store now svc collection body hint content_type status).1
        svc'
        collection'
        id'
      ≡ (if svc == svc' && ◌==◌ {A = ResourceKey} (collection, id) (collection', id')
          then some (captured store now collection id body content_type status)
          else lookup store svc' collection' id')
unfolding capture_create lookup
lookup-capture_create store now svc collection body hint content_type status id svc' collection' id'
      found =
    rw (found, capture_create)
      (get_in-put_in store.by_service svc (collection, id)
        (captured store now collection id body content_type status) svc' (collection', id'))

pub capture_create_refused :
    (store : ResourceStore) (now : ℕ) (svc collection : Text) (body : Json)
    (hint content_type : Option Text) (status : ℕ)
    → extract_id body collection hint ≡ none
    → capture_create store now svc collection body hint content_type status
      ≡ (err (id_not_found collection), store, none)
unfolding capture_create
capture_create_refused store now svc collection body hint content_type status h =
    rw (h, capture_create) refl

-- The cases of a transition: refused with nothing changed and nothing written, or made, with the
-- resource that it is made on.
pub data Transition (store : ResourceStore) (now : ℕ) (svc collection id action : Text)
    : Option Text × ResourceStore × Option ResourceState → Type 0 where
  refused : Transition store now svc collection id action (none, store, none)
  made :
      (reg : StatechartRegistry) (before after : ResourceState) (next : Text)
      → store.registry ≡ some reg
      → lookup store svc collection id ≡ some before
      → transitioned reg now action before ≡ some (next, after)
      → Transition store now svc collection id action (
        some next,
        record store { by_service = put_in store.by_service svc (collection, id) after },
        persisted store after,
      )

advance_with_cases :
    (store : ResourceStore) (now : ℕ) (svc collection id action : Text) (reg : StatechartRegistry)
    (o : Option ResourceState)
    → store.registry ≡ some reg
    → lookup store svc collection id ≡ o
    → Transition store now svc collection id action
        (advance_with store now svc (collection, id) action reg o)
unfolding advance_with
advance_with_cases store now svc collection id action reg none registered there = refused
advance_with_cases store now svc collection id action reg (some before) registered there =
    elim (Option-cases (transitioned reg now action before)) [
      | inl invalid ↦ rw (invalid, advance_with) refused
      | inr ((next, after), valid) ↦
          rw (valid, advance_with) (made reg before after next registered there valid)
    ]

transition_with_cases :
    (store : ResourceStore) (now : ℕ) (svc collection id action : Text)
    (ro : Option StatechartRegistry)
    → store.registry ≡ ro
    → Transition store now svc collection id action
        (transition_with ro store now svc (collection, id) action)
unfolding transition_with lookup
transition_with_cases store now svc collection id action none registered = refused
transition_with_cases store now svc collection id action (some reg) registered =
    advance_with_cases store now svc collection id action reg
      (get_in store.by_service svc (collection, id)) registered refl

pub apply_transition_cases :
    (store : ResourceStore) (now : ℕ) (svc collection id action : Text)
    → Transition store now svc collection id action
        (apply_transition store now svc collection id action)
unfolding apply_transition
apply_transition_cases store now svc collection id action =
    transition_with_cases store now svc collection id action store.registry refl

-- What a transition does to the resource.
pub data Advances (reg : StatechartRegistry) (now : ℕ) (action : Text) (before : ResourceState)
    : Text × ResourceState → Type 0 where
  advance :
      (machine_id current next : Text)
      → before.statechart ≡ some machine_id
      → before.current_state ≡ some current
      → apply_in reg machine_id current action ≡ some next
      → Advances reg now action before (
        next,
        record before {
          current_state = some next;
          updated_at = now;
          body = set_status before.body (status_field_of (get reg machine_id)) next;
        },
      )

Advances-current :
    {reg : StatechartRegistry} {now : ℕ} {action : Text} {before : ResourceState}
    {r : Text × ResourceState}
    → Advances reg now action before r
    → (r.1).current_state ≡ some r.0
Advances-current (advance machine_id current next bound at_state valid) = refl

pub transitioned-Advances :
    (reg : StatechartRegistry) (now : ℕ) (action : Text) (before : ResourceState)
    (r : Text × ResourceState)
    → transitioned reg now action before ≡ some r
    → Advances reg now action before r
unfolding transitioned
transitioned-Advances reg now action before r h = elim (Option-cases before.statechart) [
  | inl unbound ↦ absurd (none-ne-some r (rw (unbound, transitioned) at h))
  | inr (machine_id, bound) ↦ elim (Option-cases before.current_state) [
    | inl stateless ↦ absurd (none-ne-some r (rw (bound, stateless, transitioned) at h))
    | inr (current, at_state) ↦ elim (Option-cases (apply_in reg machine_id current action)) [
      | inl invalid ↦ absurd (none-ne-some r (rw (bound, at_state, invalid, transitioned) at h))
      | inr (next, valid) ↦
          let same = some-injective _ r (rw (bound, at_state, valid, transitioned) at h) in
          rw (← same) (advance machine_id current next bound at_state valid)
    ]
  ]
]

Transition-elsewhere :
    {store : ResourceStore} {now : ℕ} {svc collection id action : Text}
    {r : Option Text × ResourceStore × Option ResourceState} (svc' collection' id' : Text)
    → (svc == svc' && ◌==◌ {A = ResourceKey} (collection, id) (collection', id')) ≡ false
    → Transition store now svc collection id action r
    → lookup r.1 svc' collection' id' ≡ lookup store svc' collection' id'
unfolding lookup
Transition-elsewhere svc' collection' id' other refused = refl
Transition-elsewhere {store} {svc} {collection} {id} svc' collection' id' other
      (made reg before after next registered known valid) =
    get_in-put_in store.by_service svc (collection, id) after svc' (collection', id')
    ∙ rw other refl

Transition-here :
    {store : ResourceStore} {now : ℕ} {svc collection id action : Text}
    {r : Option Text × ResourceStore × Option ResourceState} (next : Text)
    → r.0 ≡ some next
    → Transition store now svc collection id action r
    → (after : ResourceState) × (lookup r.1 svc collection id ≡ some after)
      × (after.current_state ≡ some next)
unfolding lookup
Transition-here next h refused = absurd (none-ne-some next h)
Transition-here {store} {now} {svc} {collection} {id} {action} next h
      (made reg before after next' registered known valid) =
    (
      after,
      get_in-put_in store.by_service svc (collection, id) after svc (collection, id)
          ∙ rw (eq_refl svc) (rw (eq_refl {A = ResourceKey} (collection, id)) refl),
      Advances-current (transitioned-Advances reg now action before (next', after) valid) ∙ h,
    )

-- A transition, refused or made, leaves every other resource as it was.
pub apply_transition_elsewhere :
    (store : ResourceStore) (now : ℕ) (svc collection id action svc' collection' id' : Text)
    → (svc == svc' && ◌==◌ {A = ResourceKey} (collection, id) (collection', id')) ≡ false
    → lookup (apply_transition store now svc collection id action).1 svc' collection' id'
      ≡ lookup store svc' collection' id'
apply_transition_elsewhere store now svc collection id action svc' collection' id' other =
    Transition-elsewhere svc' collection' id' other
      (apply_transition_cases store now svc collection id action)

-- Where a transition answers a state, the resource is then found in that state.
pub lookup-apply_transition :
    (store : ResourceStore) (now : ℕ) (svc collection id action next : Text)
    → (apply_transition store now svc collection id action).0 ≡ some next
    → (after : ResourceState) × (lookup
          (apply_transition store now svc collection id action).1
          svc
          collection
          id
        ≡ some after)
      × (after.current_state ≡ some next)
lookup-apply_transition store now svc collection id action next h =
    Transition-here next h (apply_transition_cases store now svc collection id action)
