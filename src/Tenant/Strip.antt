-- ===== src/Tenant/Strip.antt =====
-- What `strip_tenant_param` removes, and that the tenant leaves no trace in the library's key.
use gostly_ai_proxy.Base.{
  ◌≡◌, refl, ap, ◌∙◌, true, false, none, some, List, [], ◌∷◌, ◌++◌, arith, Text, text_eq, ◌==◌,
  eq_refl, Bool-cases, Option-cases, inl, inr, All, has, split, join, split_once, retain, Free,
  Free-split, Free-append, split_once_free, split-join, split_once-some, split_once-append,
  split-append_cons,
}
use gostly_ai_proxy.Uri.{before, normalize_uri}
use gostly_ai_proxy.Tenant.{
  is_kept, tenant_key, query_tenant, with_query, strip_tenant_param, lookup_uri,
}

retain-All : (xs : List Text) → All (λ kv. is_kept kv ≡ true) xs → retain is_kept xs ≡ xs
retain-All [] h = refl
retain-All (x ∷ xs) (h, hs) = rw (h, retain-All xs hs)

retain-drops :
    (xs ys : List Text) (p : Text)
    → is_kept p ≡ false
    → All (λ kv. is_kept kv ≡ true) xs
    → All (λ kv. is_kept kv ≡ true) ys
    → retain is_kept (xs ++ p ∷ ys) ≡ xs ++ ys
retain-drops [] ys p d h k = rw (d, retain-All ys k)
retain-drops (x ∷ xs) ys p d (h, hs) k = rw (h, retain-drops xs ys p d hs k)

All-retain : (xs : List Text) → All (λ kv. is_kept kv ≡ true) (retain is_kept xs)
All-retain [] = tt
All-retain (x ∷ xs) = elim (Bool-cases (is_kept x)) [
  | inl keep ↦ rw keep (keep, All-retain xs)
  | inr drop ↦ rw drop (All-retain xs)
]

Free-retain : (xs : List Text) → Free b'&' xs → Free b'&' (retain is_kept xs)
Free-retain [] f = tt
Free-retain (x ∷ xs) (f, fs) = elim (Bool-cases (is_kept x)) [
  | inl keep ↦ rw keep (f, Free-retain xs fs)
  | inr drop ↦ rw drop (Free-retain xs fs)
]

strip_tenant_param_query :
    (path q : Text)
    → has b'?' path ≡ false
    → strip_tenant_param (path ++ b'?' ∷ q) ≡ with_query path (retain is_kept (split b'&' q))
unfolding strip_tenant_param
strip_tenant_param_query path q plain = rw (split_once-append b'?' path q plain, strip_tenant_param)

strip_tenant_param_parts :
    (path kv : Text) (kvs : List Text)
    → has b'?' path ≡ false
    → Free b'&' (kv ∷ kvs)
    → strip_tenant_param (with_query path (kv ∷ kvs)) ≡ with_query path (retain is_kept (kv ∷ kvs))
strip_tenant_param_parts path kv kvs plain free =
    strip_tenant_param_query path (join b'&' (kv ∷ kvs)) plain
    ∙ ap (λ parts. with_query path (retain is_kept parts)) (split-join b'&' kv kvs free)

before-append : (k v : Text) → has b'=' k ≡ false → before b'=' (k ++ b'=' ∷ v) ≡ k
unfolding before
before-append k v plain = rw (split-append_cons b'=' k v plain, before)

-- `_tenant=name` is dropped.
is_kept_tenant : (name : Text) → is_kept (tenant_key ++ b'=' ∷ name) ≡ false
is_kept_tenant name =
    rw (before-append tenant_key name (unfold has in refl)) (rw (eq_refl tenant_key))

has-tenant : (name : Text) → has b'&' name ≡ false → has b'&' (tenant_key ++ b'=' ∷ name) ≡ false
unfolding has
has-tenant name h = h

-- The parts of the stripped URI, where the tenant stands among others.
strip_tenant :
    (path name : Text) (xs ys : List Text)
    → has b'?' path ≡ false
    → has b'&' name ≡ false
    → Free b'&' xs
    → Free b'&' ys
    → All (λ kv. is_kept kv ≡ true) xs
    → All (λ kv. is_kept kv ≡ true) ys
    → strip_tenant_param (with_query path (xs ++ (tenant_key ++ b'=' ∷ name) ∷ ys))
      ≡ with_query path (xs ++ ys)
strip_tenant path name [] ys plain clean fx fy kx ky =
    strip_tenant_param_parts path (tenant_key ++ b'=' ∷ name) ys plain (has-tenant name clean, fy)
    ∙ ap (with_query path) (retain-drops [] ys _ (is_kept_tenant name) tt ky)
strip_tenant path name (x ∷ xs) ys plain clean (fx, fxs) fy kx ky =
    strip_tenant_param_parts path x (xs ++ (tenant_key ++ b'=' ∷ name) ∷ ys) plain
      (fx, Free-append b'&' xs ((tenant_key ++ b'=' ∷ name) ∷ ys) fxs (has-tenant name clean, fy))
    ∙ ap (with_query path) (retain-drops (x ∷ xs) ys _ (is_kept_tenant name) kx ky)

-- A `_tenant` parameter leaves no trace in the key by which the library is searched: wherever it
-- stands among the other parts, none of which has that key, the library is searched for the normal
-- form of the URI without it, which is the bare path where it stands alone.
pub lookup_uri_tenant :
    (path name : Text) (xs ys : List Text)
    → has b'?' path ≡ false
    → has b'&' name ≡ false
    → Free b'&' xs
    → Free b'&' ys
    → All (λ kv. is_kept kv ≡ true) xs
    → All (λ kv. is_kept kv ≡ true) ys
    → lookup_uri (with_query path (xs ++ (tenant_key ++ b'=' ∷ name) ∷ ys))
      ≡ normalize_uri (with_query path (xs ++ ys))
unfolding lookup_uri
lookup_uri_tenant path name xs ys plain clean fx fy kx ky =
    ap normalize_uri (strip_tenant path name xs ys plain clean fx fy kx ky)

query_tenant_kept : (kvs : List Text) → All (λ kv. is_kept kv ≡ true) kvs → query_tenant kvs ≡ none
unfolding query_tenant
query_tenant_kept [] k = refl
query_tenant_kept (kv ∷ kvs) (k, ks) = elim (Option-cases (split_once b'=' kv)) [
  | inl e ↦ rw (e, query_tenant) (query_tenant_kept kvs ks)
  | inr ((key, v), e) ↦
      let (parts, plain) = split_once-some b'=' kv key v e in
      let first : before b'=' kv ≡ key = ap (before b'=') parts ∙ before-append key v plain in
      let other : (key == tenant_key) ≡ false = ground (arith, first, k) in
      rw (e, query_tenant) (rw other (query_tenant_kept kvs ks))
]

kept_parts :
    (path' : Text) (kvs : List Text) (path q : Text)
    → has b'?' path' ≡ false
    → Free b'&' kvs
    → All (λ kv. is_kept kv ≡ true) kvs
    → split_once b'?' (with_query path' kvs) ≡ some (path, q)
    → query_tenant (split b'&' q) ≡ none
kept_parts path' [] path q plain free kept h = cc (split_once_free b'?' path' plain)
kept_parts path' (kv ∷ kvs) path q plain free kept h =
    let parts = split_once-append b'?' path' (join b'&' (kv ∷ kvs)) plain in
    let rest : q ≡ join b'&' (kv ∷ kvs) = ground (arith, parts) in
    rw rest (rw (split-join b'&' kv kvs free) (query_tenant_kept (kv ∷ kvs) kept))

strip_tenant_param_plain : (pq : Text) → split_once b'?' pq ≡ none → strip_tenant_param pq ≡ pq
unfolding strip_tenant_param
strip_tenant_param_plain pq e = rw (e, strip_tenant_param)

-- No part of a stripped URI's query names a tenant.
pub strip_tenant_param_clean :
    (path_query path q : Text)
    → split_once b'?' (strip_tenant_param path_query) ≡ some (path, q)
    → query_tenant (split b'&' q) ≡ none
strip_tenant_param_clean path_query path q h = elim (Option-cases (split_once b'?' path_query)) [
  | inl e ↦ cc (strip_tenant_param_plain path_query e)
  | inr ((path', q'), e) ↦
      let (parts, plain) = split_once-some b'?' path_query path' q' e in
      let stripped = ap strip_tenant_param parts ∙ strip_tenant_param_query path' q' plain in
      kept_parts path' (retain is_kept (split b'&' q')) path q plain
        (Free-retain (split b'&' q') (Free-split b'&' q')) (All-retain (split b'&' q'))
        (rw stripped at h)
]
