-- ===== src/Examples/Tenants.antt =====
-- The tenant theorems at concrete names and queries.
use gostly_ai_proxy.Base.{
  ◌≡◌, ◌↔◌, refl, some, List, [], ◌∷◌, ◌++◌, arith, Text, codes, has, trim, byte_len, list_beq,
}
use gostly_ai_proxy.Uri.{before, normalize_uri}
use gostly_ai_proxy.Tenant.{max_tenant_len, tenant_key, clamp_tenant, with_query, lookup_uri}
use gostly_ai_proxy.Tenant.Clamp.{clamp_tenant_cut_iff}
use gostly_ai_proxy.Tenant.Strip.{lookup_uri_tenant}

-- 128 letters.
abbrev long_name : Text
long_name =
    codes
      "abcdefghijklmnopabcdefghijklmnopabcdefghijklmnopabcdefghijklmnopabcdefghijklmnopabcdefghijklmnopabcdefghijklmnopabcdefghijklmnop"

clamp_tenant_cut_iff_example : (clamp_tenant (long_name ++ codes "q") ≡ some long_name) ↔ (
    (b : Text) × (trim (long_name ++ codes "q") ≡ long_name ++ b)
    × (byte_len long_name ≡ max_tenant_len))
unfolding trim byte_len
clamp_tenant_cut_iff_example = clamp_tenant_cut_iff (long_name ++ codes "q") long_name (omega arith)

abbrev kept_before : List Text
kept_before = codes "a=1" ∷ []

abbrev kept_after : List Text
kept_after = codes "b=2" ∷ []

lookup_uri_tenant_example :
    lookup_uri
      (with_query (codes "/x") (kept_before ++ (tenant_key ++ b'=' ∷ codes "w1") ∷ kept_after))
    ≡ normalize_uri (with_query (codes "/x") (kept_before ++ kept_after))
unfolding has before list_beq
lookup_uri_tenant_example =
    lookup_uri_tenant (codes "/x") (codes "w1") kept_before kept_after refl refl (refl, tt)
      (refl, tt) (refl, tt) (refl, tt)
