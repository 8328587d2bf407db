-- ===== src/Uri/Normalize.antt =====
-- `normalize_uri`: a normal form, and what it forgets.
mod Order
use Order.{text_leb_total, insert_swap}
use gostly_ai_proxy.Base.{
  ℕ, ◌≡◌, refl, ap, sym, ◌∙◌, ◌≢◌, Bool, true, false, Option, none, some, List, [], ◌∷◌, ◌++◌, map,
  arith, Text, nat_beq, Bool-cases, Option-cases, inl, inr, All, All-map, has, split, join,
  split_once, Free, Free-split, has-append, split-join, split_once-some, split_once-none,
  split_once-append, split_cons, if◌then◌else◌,
}
use gostly_ai_proxy.Uri.{
  key_value, text_leb, insert_param, sort_params, format_param, normalize_query, normalize_uri,
}

abbrev Params : Type 0
Params = List (Text × Text)

-- What the loop of `normalize_uri` reads: a key with no '=', in a part with no '&'.
abbrev Good : Text × Text → Type 0
Good p = (has b'=' p.0 ≡ false) × (has b'&' (format_param p) ≡ false)

key_value-Good : (kv : Text) → has b'&' kv ≡ false → Good (key_value kv)
unfolding key_value format_param
key_value-Good kv h = elim (Option-cases (split_once b'=' kv)) [
  | inl e ↦
      let plain = split_once-none b'=' kv e in
      rw (e, key_value) (plain, unfold has in rw has-append (rw h))
  | inr ((k, v), e) ↦
      let (parts, plain) = split_once-some b'=' kv k v e in rw (e, key_value) (plain, rw parts at h)
]

key_value-format_param : (p : Text × Text) → has b'=' p.0 ≡ false → key_value (format_param p) ≡ p
unfolding key_value format_param
key_value-format_param (k, v) h = rw (split_once-append b'=' k v h, key_value)

-- Sorted by key, each neighbour below the next.
abbrev IsSorted : Params → Type 0
IsSorted [] = Unit
IsSorted (p ∷ []) = Unit
IsSorted (p ∷ q ∷ ps) = (text_leb p.0 q.0 ≡ true) × IsSorted (q ∷ ps)

insert_param-IsSorted : (p : Text × Text) (ps : Params) → IsSorted ps → IsSorted (insert_param p ps)
unfolding insert_param
insert_param-IsSorted p [] s = tt
insert_param-IsSorted p (q ∷ []) s = elim (Bool-cases (text_leb p.0 q.0)) [
  | inl below ↦ rw below (below, tt)
  | inr above ↦ rw above (text_leb_total p.0 q.0 above, tt)
]
insert_param-IsSorted p (q ∷ r ∷ ps) (qr, s) =
    let rest = insert_param-IsSorted p (r ∷ ps) s in
    elim (Bool-cases (text_leb p.0 q.0)) [
      | inl below ↦ rw below (below, (qr, s))
      | inr above ↦ elim (Bool-cases (text_leb p.0 r.0)) [
        | inl pr ↦ rw (above, pr) (text_leb_total p.0 q.0 above, (pr, s))
        | inr rp ↦ rw (above, rp) (qr, rw rp at rest)
      ]
    ]

sort_params-IsSorted : (ps : Params) → IsSorted (sort_params ps)
unfolding sort_params
sort_params-IsSorted [] = tt
sort_params-IsSorted (p ∷ ps) = insert_param-IsSorted p (sort_params ps) (sort_params-IsSorted ps)

sort_params-eq_of_IsSorted : (ps : Params) → IsSorted ps → sort_params ps ≡ ps
unfolding sort_params insert_param
sort_params-eq_of_IsSorted [] s = refl
sort_params-eq_of_IsSorted (p ∷ []) s = refl
sort_params-eq_of_IsSorted (p ∷ q ∷ ps) (pq, s) = rw (sort_params-eq_of_IsSorted (q ∷ ps) s) (rw pq)

-- What holds of all parameters holds of them sorted.
All-insert_param :
    (P : Text × Text → Type 0) (p : Text × Text) (ps : Params)
    → P p
    → All P ps
    → All P (insert_param p ps)
unfolding insert_param
All-insert_param P p [] h hs = (h, tt)
All-insert_param P p (q ∷ ps) h (k, hs) = elim (Bool-cases (text_leb p.0 q.0)) [
  | inl below ↦ rw below (h, (k, hs))
  | inr above ↦ rw above (k, All-insert_param P p ps h hs)
]

All-sort_params : (P : Text × Text → Type 0) (ps : Params) → All P ps → All P (sort_params ps)
unfolding sort_params
All-sort_params P [] h = tt
All-sort_params P (p ∷ ps) (h, hs) =
    All-insert_param P p (sort_params ps) h (All-sort_params P ps hs)

Good-key_values : (kvs : List Text) → Free b'&' kvs → All Good (map key_value kvs)
Good-key_values [] f = tt
Good-key_values (kv ∷ kvs) (f, fs) = (key_value-Good kv f, Good-key_values kvs fs)

Free-format_params : (ps : Params) → All Good ps → Free b'&' (map format_param ps)
Free-format_params [] g = tt
Free-format_params (p ∷ ps) ((_, g), gs) = (g, Free-format_params ps gs)

reparse : (ps : Params) → All Good ps → map key_value (map format_param ps) ≡ ps
reparse [] g = refl
reparse (p ∷ ps) ((g, _), gs) = cc (key_value-format_param p g, reparse ps gs)

-- The parameters of a query, as the loop reads them.
abbrev pub params : Text → Params
params query = map key_value (split b'&' query)

sort_params_cons :
    (p : Text × Text) (ps : Params)
    → (q : Text × Text) × (qs : Params) × (sort_params (p ∷ ps) ≡ q ∷ qs)
unfolding sort_params insert_param
sort_params_cons p ps =
    elim (sort_params ps)
      as (λ l. (q : Text × Text) × (qs : Params) × (insert_param p l ≡ q ∷ qs)) [
        | [] ↦ (p, [], refl)
        | q ∷ qs ↦ elim (Bool-cases (text_leb p.0 q.0)) [
          | inl below ↦ (p, q ∷ qs, rw below)
          | inr above ↦ (q, insert_param p qs, rw above)
        ]
      ]

split-join_params :
    (ps : Params) (p : Text × Text) (qs : Params)
    → ps ≡ p ∷ qs
    → All Good ps
    → split b'&' (join b'&' (map format_param ps)) ≡ map format_param ps
split-join_params ps p qs e g = rw e (
    split-join b'&' (format_param p) (map format_param qs)
      (Free-format_params (p ∷ qs) (rw e at g)))

-- The query of a normal form has the sorted parameters.
params-normalize_query : (q : Text) → params (normalize_query q) ≡ sort_params (params q)
unfolding normalize_query
params-normalize_query q =
    let good =
      All-sort_params Good (params q) (Good-key_values (split b'&' q) (Free-split b'&' q)) in
    let (p, ps, e) = split_cons b'&' q in
    let (r, rs, e') = sort_params_cons (key_value p) (map key_value ps) in
    let sorted : sort_params (params q) ≡ r ∷ rs = rw e e' in
    ap (map key_value) (split-join_params (sort_params (params q)) r rs sorted good)
    ∙ reparse (sort_params (params q)) good

normalize_query_idem : (q : Text) → normalize_query (normalize_query q) ≡ normalize_query q
unfolding normalize_query
normalize_query_idem q =
    ap (λ ps. join b'&' (map format_param (sort_params ps))) (params-normalize_query q)
    ∙ ap (λ ps. join b'&' (map format_param ps))
        (sort_params-eq_of_IsSorted (sort_params (params q)) (sort_params-IsSorted (params q)))

normalize_uri_plain : (uri : Text) → split_once b'?' uri ≡ none → normalize_uri uri ≡ uri
unfolding normalize_uri
normalize_uri_plain uri e = rw (e, normalize_uri)

-- The path stays, and the query is put into its own normal form.
pub normalize_uri-append :
    (path q : Text)
    → has b'?' path ≡ false
    → normalize_uri (path ++ b'?' ∷ q) ≡ path ++ b'?' ∷ normalize_query q
unfolding normalize_uri
normalize_uri-append path q plain = rw (split_once-append b'?' path q plain, normalize_uri)

-- Normalising a URI twice is normalising it once: what is recorded under a normal form is looked up
-- under the same one.
pub normalize_uri_idem : (uri : Text) → normalize_uri (normalize_uri uri) ≡ normalize_uri uri
normalize_uri_idem uri = elim (Option-cases (split_once b'?' uri)) [
  | inl e ↦ ap normalize_uri (normalize_uri_plain uri e)
  | inr ((path, q), e) ↦
      let (parts, plain) = split_once-some b'?' uri path q e in
      rw parts (
        rw (normalize_uri-append path q plain)
          (rw (normalize_uri-append path (normalize_query q) plain, normalize_query_idem q)))
]

-- One parameter list is another with neighbours of different keys exchanged, any number of times:
-- parameters of one key keep their order.
pub data Reordered : Params → Params → Type 0 where
  same : {ps : Params} → Reordered ps ps
  keep : {p : Text × Text} {ps qs : Params} → Reordered ps qs → Reordered (p ∷ ps) (p ∷ qs)
  exchange : {p q : Text × Text} {ps : Params} → p.0 ≢ q.0 → Reordered (p ∷ q ∷ ps) (q ∷ p ∷ ps)
  chain : {ps qs rs : Params} → Reordered ps qs → Reordered qs rs → Reordered ps rs

sort_params-Reordered : {ps qs : Params} → Reordered ps qs → sort_params ps ≡ sort_params qs
unfolding sort_params
sort_params-Reordered same = refl
sort_params-Reordered (keep {p} r) = ap (insert_param p) (sort_params-Reordered r)
sort_params-Reordered (exchange {p} {q} {ps} ne) = insert_swap p q (sort_params ps) ne
sort_params-Reordered (chain r s) = sort_params-Reordered r ∙ sort_params-Reordered s

-- The order of parameters with different keys does not matter to the normal form.
pub normalize_uri-Reordered :
    (path q r : Text)
    → has b'?' path ≡ false
    → Reordered (params q) (params r)
    → normalize_uri (path ++ b'?' ∷ q) ≡ normalize_uri (path ++ b'?' ∷ r)
normalize_uri-Reordered path q r plain e =
    rw (normalize_uri-append path q plain, normalize_uri-append path r plain)
      (unfold normalize_query in
        ap (λ ps. path ++ b'?' ∷ join b'&' (map format_param ps)) (sort_params-Reordered e))
