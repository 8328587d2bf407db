-- ===== src/Workload/Order.antt =====
-- The order of precedence of the classes, and their wire form.
use gostly_ai_proxy.Base.{◌≡◌, refl, true, arith, Text, list_beq, if◌then◌else◌}
use gostly_ai_proxy.Http.{HeaderMap}
use gostly_ai_proxy.Workload.{
  WorkloadClass, human, ci, agent, unknown, as_str, from_str_or_unknown, explicit_agent_override,
  is_ci, infer_workload_class,
}

-- Every class is read back from its wire form.
from_str_or_unknown-as_str : (c : WorkloadClass) → from_str_or_unknown (as_str c) ≡ c
unfolding from_str_or_unknown as_str list_beq
from_str_or_unknown-as_str human = refl
from_str_or_unknown-as_str ci = refl
from_str_or_unknown-as_str agent = refl
from_str_or_unknown-as_str unknown = refl

module _ (to_lowercase : Text → Text) where
  -- The explicit override makes a request an agent's, whatever its user agent, unless a marker of
  -- continuous integration is there too.
  infer_workload_class-override :
      (headers : HeaderMap) (ua : Text)
      → explicit_agent_override headers ≡ true
      → infer_workload_class to_lowercase headers ua
        ≡ (if is_ci to_lowercase headers ua then ci else agent)
  unfolding infer_workload_class
  infer_workload_class-override headers ua h = ground (arith, h)
