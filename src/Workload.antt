-- ===== src/Workload.antt =====
-- Workload classes (src/workload_class.rs). `str::to_lowercase` reads Unicode's tables: it is a
-- parameter, of whose answers nothing is assumed.
pub mod Order
use gostly_ai_proxy.Base.{
  ℕ, ◌+◌, Bool, true, false, ◌&&◌, ◌||◌, Option, none, some, List, [], ◌∷◌, map, Text, text_eq,
  ◌==◌, codes, leb, if◌then◌else◌, any, contains,
}
use gostly_ai_proxy.Http.{HeaderMap}

pub data WorkloadClass : Type 0 where
  human ci agent unknown : WorkloadClass

unfoldable pub as_str : WorkloadClass → Text
as_str human = codes "human"
as_str ci = codes "ci"
as_str agent = codes "agent"
as_str unknown = codes "unknown"

unfoldable pub from_str_or_unknown : Text → WorkloadClass
from_str_or_unknown raw =
    if raw == codes "human"
    then human
    else if raw == codes "ci"
    then ci
    else if raw == codes "agent"
    then agent
    else unknown

abbrev ci_user_agents : List Text
ci_user_agents =
    codes "Bamboo"
    ∷ codes "BuildKite"
    ∷ codes "Buildkite"
    ∷ codes "CircleCI"
    ∷ codes "Drone"
    ∷ codes "Bitrise"
    ∷ codes "GitHub-Hookshot"
    ∷ codes "GitLab-Runner"
    ∷ codes "Jenkins"
    ∷ codes "TeamCity"
    ∷ codes "Travis"
    ∷ []

abbrev ci_marker_headers : List Text
ci_marker_headers =
    codes "x-ci-build-id"
    ∷ codes "gitlab-ci-build-id"
    ∷ codes "github-actions-job"
    ∷ codes "x-ci"
    ∷ []

abbrev agent_user_agents : List Text
agent_user_agents =
    codes "aider"
    ∷ codes "anthropic-ai/sdk"
    ∷ codes "claude-code"
    ∷ codes "cline"
    ∷ codes "continue"
    ∷ codes "copilot-cli"
    ∷ codes "cursor"
    ∷ codes "github-copilot"
    ∷ codes "langchain/"
    ∷ codes "llamaindex/"
    ∷ codes "OpenAI/"
    ∷ codes "replit-agent"
    ∷ codes "roo-code"
    ∷ codes "windsurf"
    ∷ []

abbrev human_browser_signatures : List Text
human_browser_signatures =
    codes "Chrome/" ∷ codes "Edge/" ∷ codes "Firefox/" ∷ codes "Mozilla/" ∷ codes "Safari/" ∷ []

unfoldable pub has_any_header : HeaderMap → List Text → Bool
has_any_header headers keys = any (λ k. headers.contains_key k) keys

-- `eq_ignore_ascii_case`, by the lower case of ASCII.
abbrev ascii_lower : ℕ → ℕ
ascii_lower c = if leb b'A' c && leb c b'Z' then c + 32 else c

abbrev eq_value : Option Text → Text → Bool
eq_value none value = false
eq_value (some v) value = map ascii_lower v == map ascii_lower value

unfoldable pub header_value_eq : HeaderMap → Text → Text → Bool
header_value_eq headers name value = eq_value (headers.get_str name) value

unfoldable pub explicit_agent_override : HeaderMap → Bool
unfolding header_value_eq
explicit_agent_override headers =
    header_value_eq headers (codes "x-gostly-workload-class") (codes "agent")

module _ (to_lowercase : Text → Text) where
  unfoldable pub matches_any_substring : Text → List Text → Bool
  unfolding contains
  matches_any_substring haystack_lower needles =
      any (λ n. contains haystack_lower (to_lowercase n)) needles

  abbrev pub is_ci : HeaderMap → Text → Bool
  is_ci headers ua =
      has_any_header headers ci_marker_headers
      || matches_any_substring (to_lowercase ua) ci_user_agents

  abbrev pub is_headless : HeaderMap → Text → Bool
  is_headless headers ua = ua == [] && header_value_eq headers (codes "x-runtime") (codes "nodejs")

  unfoldable pub infer_workload_class : HeaderMap → Text → WorkloadClass
  unfolding has_any_header matches_any_substring explicit_agent_override header_value_eq
  infer_workload_class headers ua =
      let ua_lower = to_lowercase ua in
      if has_any_header headers ci_marker_headers
      then ci
      else if matches_any_substring ua_lower ci_user_agents
      then ci
      else if explicit_agent_override headers
      then agent
      else if matches_any_substring ua_lower agent_user_agents
      then agent
      else if is_headless headers ua
      then agent
      else if matches_any_substring ua_lower human_browser_signatures
      then human
      else unknown
