-- ===== src/Tenant.antt =====
-- Tenant resolution (src/main.rs): `resolve_tenant`, `strip_tenant_param` and `clamp_tenant`.
-- `none` is the panic of a slice that cuts a character.
pub mod Clamp
pub mod Strip
use gostly_ai_proxy.Base.{
  ℕ, Bool, not, Option, none, some, List, [], ◌∷◌, ◌++◌, Text, text_eq, ◌==◌, codes, ltb,
  if◌then◌else◌, retain, split, join, split_once, trim, byte_len, take_bytes,
}
use gostly_ai_proxy.Http.{HeaderMap}
use gostly_ai_proxy.Types.{global_tenant}
use gostly_ai_proxy.Uri.{before, normalize_uri}

-- `MAX_TENANT_LEN`.
abbrev pub max_tenant_len : ℕ
max_tenant_len = 128

abbrev pub tenant_key : Text
tenant_key = codes "_tenant"

unfoldable pub clamp_tenant : Text → Option Text
clamp_tenant raw =
    let trimmed = trim raw in
    if trimmed == []
    then some global_tenant
    else if ltb max_tenant_len (byte_len trimmed)
    then take_bytes max_tenant_len trimmed
    else some trimmed

-- The loop over `q.split('&')`: the value of the first part `_tenant=…`.
unfoldable pub query_tenant : List Text → Option Text
unfolding split_once
query_tenant [] = none
query_tenant (kv ∷ kvs) =
    let rest = query_tenant kvs in
    elim (split_once b'=' kv) [
      | none ↦ rest
      | some (k, v) ↦ if k == tenant_key then some v else rest
    ]

-- `query` is `parts.uri.query()`.
unfoldable pub resolve_tenant : HeaderMap → Option Text → Option Text
unfolding clamp_tenant query_tenant split
resolve_tenant headers query = elim (headers.get_str (codes "x-gostly-tenant")) [
  | some v ↦ clamp_tenant v
  | none ↦ elim query [
    | none ↦ some global_tenant
    | some q ↦ elim (query_tenant (split b'&' q)) [
      | none ↦ some global_tenant
      | some v ↦ clamp_tenant v
    ]
  ]
]

-- The test of `filter` in `strip_tenant_param`.
abbrev pub is_kept : Text → Bool
is_kept kv = not (before b'=' kv == tenant_key)

-- `path.to_string()` if nothing is kept, else `format!("{}?{}", path, kept.join("&"))`.
abbrev pub with_query : Text → List Text → Text
with_query path [] = path
with_query path (kv ∷ kvs) = path ++ b'?' ∷ join b'&' (kv ∷ kvs)

unfoldable pub strip_tenant_param : Text → Text
unfolding split_once split before join
strip_tenant_param path_query = elim (split_once b'?' path_query) [
  | none ↦ path_query
  | some (path, query) ↦ with_query path (retain is_kept (split b'&' query))
]

-- The `path_query` of `proxy_handler`, by which the library is searched.
unfoldable pub lookup_uri : Text → Text
unfolding strip_tenant_param normalize_uri
lookup_uri raw_path_query = normalize_uri (strip_tenant_param raw_path_query)
