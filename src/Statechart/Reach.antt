-- ===== src/Statechart/Reach.antt =====
-- The states that a resource can get to: those of the machine that it started in.
use gostly_ai_proxy.Base.{
  ◌≡◌, refl, Bool, true, ◌&&◌, Option, none, some, List, [], ◌∷◌, arith, Text, text_eq, ◌==◌,
  eq_iff, all, All, Option-cases, Bool-cases, inl, inr, all-All, list_beq,
}
use mathlib.Core.Option.{none-ne-some}
use gostly_ai_proxy.Base.HashMap
use gostly_ai_proxy.Base.HashMap.{HashMap, All-get, All-insert}
use gostly_ai_proxy.Statechart.{
  State, StateMachine, StatechartRegistry, named, has_state, apply, add_fixture, load_fixtures,
  with_fixtures, get,
}
use gostly_ai_proxy.Statechart.Fixtures.{with_bundled_fixtures}

-- A run of actions, each defined where it is taken.
pub data Reach (m : StateMachine) : Text → Text → Type 0 where
  start : {s : Text} → Reach m s s
  step : {s t u : Text} (action : Text) → Reach m s t → apply m t action ≡ some u → Reach m s u

-- The initial state and the target of every transition are states of the machine.
abbrev pub is_closed : StateMachine → Bool
is_closed m =
    has_state m m.initial
    && all (λ (b : Text × State). all (λ (t : Text × Text). has_state m t.1) b.1.transitions)
        m.states

apply-has_state :
    (m : StateMachine) (s action u : Text)
    → is_closed m ≡ true
    → apply m s action ≡ some u
    → has_state m u ≡ true
unfolding apply
apply-has_state m s action u closed h = elim (Option-cases (HashMap.get m.states s)) [
  | inl unknown ↦ absurd (none-ne-some u (rw (unknown, apply) at h))
  | inr (st, known) ↦
      let each =
        all-All (λ (b : Text × State). all (λ (t : Text × Text). has_state m t.1) b.1.transitions)
          m.states (ground (arith, closed)) in
      let there =
        All-get (λ b. all (λ (t : Text × Text). has_state m t.1) b.1.transitions ≡ true) m.states s
          each known in
      All-get (λ t. has_state m t.1 ≡ true) st.transitions action
        (all-All (λ (t : Text × Text). has_state m t.1) st.transitions there)
        (rw (known, apply) at h)
]

-- No action leads a machine out of its states, however long the run.
pub Reach-has_state :
    (m : StateMachine) (s : Text) → is_closed m ≡ true → Reach m m.initial s → has_state m s ≡ true
Reach-has_state m s closed start = ground (arith, closed)
Reach-has_state m s closed (step {t} action r h) = apply-has_state m t action s closed h

-- What the registry promises of the machine that it has under a name.
abbrev pub IsRegistered : Text × StateMachine → Type 0
IsRegistered (id, m) = (m.id ≡ id) × (has_state m m.initial ≡ true)

named-id : (id : Text) (m : StateMachine) → (named id m).id ≡ id
named-id id m = elim (Bool-cases (m.id == id)) [
  | inl same ↦ rw same ((eq_iff m.id id).0 same)
  | inr other ↦ rw other refl
]

add_fixture-IsRegistered :
    (reg : StatechartRegistry) (id : Text) (json : Option StateMachine)
    → All IsRegistered reg
    → All IsRegistered (add_fixture reg id json)
unfolding add_fixture
add_fixture-IsRegistered reg id none known = known
add_fixture-IsRegistered reg id (some parsed) known =
    let m = named id parsed in
    elim (Bool-cases (has_state m m.initial)) [
      | inl ok ↦ rw ok (All-insert IsRegistered reg id m (named-id id parsed, ok) known)
      | inr bad ↦ rw bad known
    ]

load_fixtures-IsRegistered :
    (reg : StatechartRegistry) (fixtures : List (Text × Option StateMachine))
    → All IsRegistered reg
    → All IsRegistered (load_fixtures reg fixtures)
unfolding load_fixtures
load_fixtures-IsRegistered reg [] known = known
load_fixtures-IsRegistered reg ((id, json) ∷ fixtures) known =
    load_fixtures-IsRegistered (add_fixture reg id json) fixtures
      (add_fixture-IsRegistered reg id json known)

-- Whatever the fixtures parse to, a machine that the registry gives has the name that it was asked
-- for and an initial state that it knows.
pub with_fixtures-get :
    (fixtures : List (Text × Option StateMachine)) (id : Text) (m : StateMachine)
    → get (with_fixtures fixtures) id ≡ some m
    → (m.id ≡ id) × (has_state m m.initial ≡ true)
unfolding with_fixtures get
with_fixtures-get fixtures id m found =
    All-get IsRegistered (load_fixtures [] fixtures) id (load_fixtures-IsRegistered [] fixtures tt)
      found

bundled_closed : all (λ (b : Text × StateMachine). is_closed b.1) with_bundled_fixtures ≡ true
unfolding with_bundled_fixtures has_state HashMap.get HashMap.insert list_beq
bundled_closed = refl

-- A machine of the bundled registry stays among its own states: every state that actions lead to
-- from its initial state is one that it knows.
pub with_bundled_fixtures-Reach :
    (id : Text) (m : StateMachine) (s : Text)
    → get with_bundled_fixtures id ≡ some m
    → Reach m m.initial s
    → has_state m s ≡ true
unfolding get
with_bundled_fixtures-Reach id m s found r =
    let closed =
      All-get (λ b. is_closed b.1 ≡ true) with_bundled_fixtures id
        (all-All (λ (b : Text × StateMachine). is_closed b.1) with_bundled_fixtures bundled_closed)
        found in
    Reach-has_state m s closed r
