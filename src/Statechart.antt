-- ===== src/Statechart.antt =====
-- The statechart interpreter (src/statechart.rs) and its bundled fixtures, which `include_str!` embeds.
-- Reading their JSON is serde's work: `Source` is what a fixture's text parses to.
pub mod Fixtures
pub mod Reach
use gostly_ai_proxy.Base.{
  ℕ, Bool, true, false, Option, none, some, List, [], ◌∷◌, Text, text_eq, ◌==◌, codes, length,
  if◌then◌else◌,
}
use gostly_ai_proxy.Base.HashMap
use gostly_ai_proxy.Base.HashMap.{HashMap}

pub record State : Type 0 where
  pub transitions : HashMap Text Text

pub record StateMachine : Type 0 where
  pub id : Text
  pub initial : Text
  pub states : HashMap Text State
  pub status_field : Text

-- `default_status_field`.
abbrev pub default_status_field : Text
default_status_field = codes "status"

abbrev pub is_some {ℓ} : {A : Type ℓ} → Option A → Bool
is_some none = false
is_some (some a) = true

unfoldable pub has_state : StateMachine → Text → Bool
has_state m name = is_some (HashMap.get m.states name)

unfoldable pub apply : StateMachine → Text → Text → Option Text
apply m current_state action = elim (HashMap.get m.states current_state) [
  | none ↦ none
  | some st ↦ HashMap.get st.transitions action
]

abbrev pub StatechartRegistry : Type 0
StatechartRegistry = HashMap Text StateMachine

-- `if m.id != *id { m.id = id }`.
abbrev pub named : Text → StateMachine → StateMachine
named id m = if m.id == id then m else record m { id = id }

-- A round of the loop over the fixtures; `none` is a fixture that fails to parse.
unfoldable pub add_fixture : StatechartRegistry → Text → Option StateMachine → StatechartRegistry
unfolding has_state
add_fixture reg id none = reg
add_fixture reg id (some parsed) =
    let m = named id parsed in if has_state m m.initial then HashMap.insert reg id m else reg

unfoldable pub load_fixtures :
    StatechartRegistry → List (Text × Option StateMachine) → StatechartRegistry
unfolding add_fixture
load_fixtures reg [] = reg
load_fixtures reg ((id, json) ∷ fixtures) = load_fixtures (add_fixture reg id json) fixtures

-- `with_bundled_fixtures`, for whatever the fixtures parse to.
unfoldable pub with_fixtures : List (Text × Option StateMachine) → StatechartRegistry
unfolding load_fixtures
with_fixtures fixtures = load_fixtures [] fixtures

unfoldable pub get : StatechartRegistry → Text → Option StateMachine
get reg id = HashMap.get reg id

unfoldable pub len : StatechartRegistry → ℕ
len reg = length reg

unfoldable pub is_empty : StatechartRegistry → Bool
is_empty [] = true
is_empty (m ∷ ms) = false

unfoldable pub apply_in : StatechartRegistry → Text → Text → Text → Option Text
unfolding apply get
apply_in reg machine_id current_state action = elim (get reg machine_id) [
  | none ↦ none
  | some m ↦ apply m current_state action
]
