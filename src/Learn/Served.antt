-- ===== src/Learn/Served.antt =====
-- The response that `serve_mock_response` of src/main.rs makes of valid headers and a valid status.
use gostly_ai_proxy.Base.{
  ℕ, ◌≡◌, refl, sym, ap, true, Option, some, List, [], ◌∷◌, Text, text_eq, utf8, All, Bool-cases,
  inl, inr,
}
use mathlib.Core.Path.{subst}
use mathlib.Core.Option.{get_or}
use gostly_ai_proxy.Base.HashMap
use gostly_ai_proxy.Base.HashMap.{HashMap, All-insert}
use gostly_ai_proxy.Http.{Bytes}
use gostly_ai_proxy.Proxy.{Answer, served}
use gostly_ai_proxy.Response.{
  HttpRules, Response, Outcome, responded, is_hop_by_hop, build_headers, build_response,
  serve_mock_response, render,
}
use gostly_ai_proxy.Upstream.{collect_headers}
use gostly_ai_proxy.Learn.Redacted.{Masked}

-- A name that `HeaderName::try_from` takes.
abbrev pub IsNamed : HttpRules → Text → Type 0
IsNamed rules k = (name : Text) × (rules.header_name k ≡ some name)

pub collect_headers-IsNamed :
    (rules : HttpRules) (m : HashMap Text Text) (headers : List (Text × Option Text))
    → All (λ (h : Text × Text). IsNamed rules h.0) m
    → All (λ (h : Text × Option Text). IsNamed rules h.0) headers
    → All (λ (h : Text × Text). IsNamed rules h.0) (collect_headers m headers)
unfolding collect_headers
collect_headers-IsNamed rules m [] h named = h
collect_headers-IsNamed rules m ((k, v) ∷ headers) h (name, named) =
    collect_headers-IsNamed rules (HashMap.insert m k (get_or v [])) headers
      (All-insert (λ (b : Text × Text). IsNamed rules b.0) m k (get_or v []) name h) named

pub Masked-IsNamed :
    (rules : HttpRules) (hs hs' : HashMap Text Text)
    → Masked rules.to_lowercase hs hs'
    → All (λ (h : Text × Text). IsNamed rules h.0) hs
    → All (λ (h : Text × Text). IsNamed rules h.0) hs'
Masked-IsNamed rules [] [] m named = tt
Masked-IsNamed rules [] (h ∷ hs) m named = elim m [ ]
Masked-IsNamed rules (h ∷ hs) [] m named = elim m [ ]
Masked-IsNamed rules ((k, v) ∷ hs) ((k', v') ∷ hs') (same, valued, masked, m) (name, named) =
    (subst (IsNamed rules) (sym same) name, Masked-IsNamed rules hs hs' m named)

pub build_headers-IsNamed :
    (rules : HttpRules) (hs : HashMap Text Text)
    → All (λ (h : Text × Text). IsNamed rules h.0) hs
    → (out : List (Text × Bytes)) × (build_headers rules hs ≡ some out)
unfolding build_headers
build_headers-IsNamed rules [] named = ([], refl)
build_headers-IsNamed rules ((k, v) ∷ hs) ((name, valid), named) =
    let (rest, built) = build_headers-IsNamed rules hs named in
    elim (Bool-cases (is_hop_by_hop (rules.to_lowercase k))) [
      | inl hop ↦ (rest, rw (hop, build_headers) built)
      | inr end ↦ elim (Bool-cases (rules.is_header_value (utf8 v))) [
        | inl fine ↦ ((name, utf8 v) ∷ rest, rw (end, fine, valid, built, build_headers) refl)
        | inr bad ↦ (rest, rw (end, bad, build_headers) built)
      ]
    ]

response_built :
    (rules : HttpRules) (status : ℕ) (headers : HashMap Text Text) (body : Bytes)
    (hs : List (Text × Bytes))
    → rules.is_status status ≡ true
    → build_headers rules headers ≡ some hs
    → build_response rules status headers body
      ≡ record { status = status; headers = hs; body = body }
unfolding build_response
response_built rules status headers body hs valid built = rw (built, valid, build_response) refl

pub served_as :
    (rules : HttpRules) (a : Answer) (hs : List (Text × Bytes))
    → rules.is_status a.status ≡ true
    → build_headers rules a.headers ≡ some hs
    → ((serve_mock_response rules a).status ≡ a.status)
      × ((serve_mock_response rules a).body ≡ utf8 a.body)
unfolding serve_mock_response
served_as rules a hs valid built =
    let built_of = response_built rules a.status a.headers (utf8 a.body) hs valid built in
    (ap (λ (r : Response). r.status) built_of, ap (λ (r : Response). r.body) built_of)

pub rendered :
    (rules : HttpRules) (a : Answer)
    → ◌≡◌ {A = Outcome}
        (responded (render rules (served a)))
        (responded (serve_mock_response rules a))
unfolding render
rendered rules a = refl
