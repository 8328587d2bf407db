-- ===== src/ResourceStore/Tracked.antt =====
-- Every captured resource is in a state that its machine can get to: the invariant that captures and
-- transitions keep.
use gostly_ai_proxy.Base.{
  ◌≡◌, refl, ap, sym, ◌∙◌, ◌&&◌, ℕ, Option, none, some, Text, text_eq, pair_eq, ◌==◌, Bool-cases,
  Option-cases, inl, inr,
}
use mathlib.Core.Option.{none-ne-some, some-injective}
use gostly_ai_proxy.Json.{Json}
use gostly_ai_proxy.Statechart.{StatechartRegistry, StateMachine, apply, apply_in, get}
use gostly_ai_proxy.Statechart.Reach.{Reach, start, step}
use gostly_ai_proxy.ResourceStore.Extract.{extract_id}
use gostly_ai_proxy.ResourceStore.{
  ResourceKey, ResourceState, ResourceStore, bound_machine, initial_state, lookup, captured,
  capture_create, apply_transition, get_in, put_in,
}
use gostly_ai_proxy.ResourceStore.Lookup.{
  get_in-put_in, Transition, refused, made, apply_transition_cases, Advances, advance,
  transitioned-Advances,
}

-- The machine that the resource is bound to is registered, and gets to the state that it is in.
abbrev pub Tracked : StatechartRegistry → ResourceState → Type 0
Tracked reg st =
    (m s : Text)
    → st.statechart ≡ some m
    → st.current_state ≡ some s
    → (sm : StateMachine) × (get reg m ≡ some sm) × Reach sm sm.initial s

abbrev pub IsTracked : StatechartRegistry → ResourceStore → Type 0
IsTracked reg store =
    (svc collection id : Text) (st : ResourceState)
    → lookup store svc collection id ≡ some st
    → Tracked reg st

initial_state-Reach :
    (reg : StatechartRegistry) (ro : Option StatechartRegistry) (mo : Option Text) (m s : Text)
    → ro ≡ some reg
    → mo ≡ some m
    → initial_state ro mo ≡ some s
    → (sm : StateMachine) × (get reg m ≡ some sm) × Reach sm sm.initial s
initial_state-Reach reg none mo m s registered bound h = absurd (none-ne-some reg registered)
initial_state-Reach reg (some r) none m s registered bound h = absurd (none-ne-some m bound)
initial_state-Reach reg (some r) (some m') m s registered bound h = elim (Option-cases (get r m')) [
  | inl unknown ↦ absurd (none-ne-some s (rw unknown at h))
  | inr (sm, known) ↦
      let begun = some-injective sm.initial s (rw known at h) in
      (
        sm,
        rw (← some-injective r reg registered, ← some-injective m' m bound) known,
        rw (← begun) start,
      )
]

-- A lookup in a store with one resource put finds that resource or one of before.
put-IsTracked :
    (reg : StatechartRegistry) (store store' : ResourceStore) (svc collection id : Text)
    (after : ResourceState)
    → store'.by_service ≡ put_in store.by_service svc (collection, id) after
    → Tracked reg after
    → IsTracked reg store
    → IsTracked reg store'
unfolding lookup
put-IsTracked reg store store' svc collection id after same tracked all_tracked svc' collection' id'
      st found =
    let eqn =
      ap (λ map. get_in map svc' (collection', id')) same
      ∙ get_in-put_in store.by_service svc (collection, id) after svc' (collection', id') in
    elim (Bool-cases (svc == svc' && ◌==◌ {A = ResourceKey} (collection, id) (collection', id'))) [
      | inl here ↦ rw (← some-injective after st (sym (rw here at eqn) ∙ found)) tracked
      | inr there ↦ all_tracked svc' collection' id' st (sym (rw there at eqn) ∙ found)
    ]

-- Under the registry of the store, if every resource is in a state that its machine gets to from
-- its initial state, then so it is after a capture, made or refused.
pub capture_create-IsTracked :
    (reg : StatechartRegistry) (store : ResourceStore) (now : ℕ) (svc collection : Text)
    (body : Json) (hint content_type : Option Text) (status : ℕ)
    → store.registry ≡ some reg
    → IsTracked reg store
    → IsTracked reg (capture_create store now svc collection body hint content_type status).1
unfolding capture_create captured
capture_create-IsTracked reg store now svc collection body hint content_type status registered
      tracked =
    elim (Option-cases (extract_id body collection hint)) [
      | inl missing ↦ rw (missing, capture_create) tracked
      | inr (id, found) ↦
          rw (found, capture_create)
            (put-IsTracked reg store _ svc collection id
              (captured store now collection id body content_type status) refl
              (λ m s bound at_state.
                initial_state-Reach reg store.registry (bound_machine store.registry collection) m s
                  registered bound at_state)
              tracked)
    ]

Advances-Tracked :
    (reg : StatechartRegistry) {now : ℕ} {action : Text} {before : ResourceState}
    {r : Text × ResourceState}
    → Tracked reg before
    → Advances reg now action before r
    → Tracked reg r.1
unfolding apply_in
Advances-Tracked reg {action} tracked (advance machine_id current next bound at_state valid) m s
      bound' at_state' =
    let (sm, known, reached) = tracked machine_id current bound at_state in
    let moved : apply sm current action ≡ some next = rw (known, apply_in) at valid in
    let same = some-injective machine_id m (sym bound ∙ bound') in
    let here = some-injective next s at_state' in
    (sm, ap (get reg) (sym same) ∙ known, rw (← here) (step action reached moved))

Transition-IsTracked :
    (reg : StatechartRegistry) {store : ResourceStore} {now : ℕ} {svc collection id action : Text}
    {r : Option Text × ResourceStore × Option ResourceState}
    → store.registry ≡ some reg
    → IsTracked reg store
    → Transition store now svc collection id action r
    → IsTracked reg r.1
Transition-IsTracked reg registered tracked refused = tracked
Transition-IsTracked reg {store} {now} {svc} {collection} {id} {action} registered tracked
      (made reg' before after next registered' known valid) =
    let same = some-injective reg' reg (sym registered' ∙ registered) in
    let advanced = transitioned-Advances reg' now action before (next, after) valid in
    put-IsTracked reg store _ svc collection id after refl
      (Advances-Tracked reg (tracked svc collection id before known) (rw same at advanced)) tracked

-- Under the registry of the store, if every resource is in a state that its machine gets to from
-- its initial state, then so it is after a transition, made or refused.
pub apply_transition-IsTracked :
    (reg : StatechartRegistry) (store : ResourceStore) (now : ℕ) (svc collection id action : Text)
    → store.registry ≡ some reg
    → IsTracked reg store
    → IsTracked reg (apply_transition store now svc collection id action).1
apply_transition-IsTracked reg store now svc collection id action registered tracked =
    Transition-IsTracked reg registered tracked
      (apply_transition_cases store now svc collection id action)
