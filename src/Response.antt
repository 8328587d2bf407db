-- ===== src/Response.antt =====
-- The responses that the handler sends (src/main.rs): `build_response`, `serve_mock_response`, and
-- the literal ones. The crate `http` is the parameter `HttpRules`; a failed request is its status.
use gostly_ai_proxy.Base.{
  ℕ, Bool, Option, none, some, List, [], ◌∷◌, Text, text_eq, ◌==◌, codes, utf8, any, if◌then◌else◌,
}
use mathlib.Core.Option.{get_or}
use gostly_ai_proxy.Base.HashMap.{HashMap}
use gostly_ai_proxy.Http.{Bytes}
use gostly_ai_proxy.Proxy.{Answer, Reply, served, missed}

-- What the code asks of `http` and of `str::to_lowercase`.
pub record HttpRules : Type 0 where
  -- `StatusCode::from_u16(status).is_ok()`.
  pub is_status : ℕ → Bool
  -- `method.parse()` of the client.
  pub is_method : Text → Bool
  -- `HeaderName::try_from(name)`: the name in its normal form, where it is one.
  pub header_name : Text → Option Text
  -- `HeaderValue::from_bytes(value).is_ok()`.
  pub is_header_value : Bytes → Bool
  -- `HeaderValue::from_str(value).is_ok()`, which is narrower.
  pub is_header_str : Text → Bool
  pub to_lowercase : Text → Text

pub record Response : Type 0 where
  pub status : ℕ
  pub headers : List (Text × Bytes)
  pub body : Bytes

-- `Err(StatusCode)`, and a panic, are the other outcomes of the handler.
pub data Outcome : Type 0 where
  responded : Response → Outcome
  failed : ℕ → Outcome
  panicked : Outcome

abbrev pub is_hop_by_hop : Text → Bool
is_hop_by_hop name =
    any (λ n. n == name) (codes "transfer-encoding" ∷ codes "connection" ∷ codes "keep-alive" ∷ [])

-- `Response::new(Body::empty())`.
abbrev pub empty_response : Response
empty_response = record { status = 200; headers = []; body = [] }

-- `headers_mut().insert(name, value)`: one value of the name, in place of those it had.
abbrev pub set_header : List (Text × Bytes) → Text → Bytes → List (Text × Bytes)
set_header [] name value = (name, value) ∷ []
set_header ((n, v) ∷ headers) name value =
    let rest = set_header headers name value in
    if n == name then (name, value) ∷ without headers name else (n, v) ∷ rest
  where
    without : List (Text × Bytes) → Text → List (Text × Bytes)
    without [] name = []
    without ((n, v) ∷ headers) name =
        let rest = without headers name in if n == name then rest else (n, v) ∷ rest

module _ (rules : HttpRules) where
  abbrev pub status_or : ℕ → ℕ → ℕ
  status_or status fallback = if rules.is_status status then status else fallback

  -- The loop over the headers; `none` is the error that a builder keeps.
  unfoldable pub build_headers : HashMap Text Text → Option (List (Text × Bytes))
  unfolding utf8
  build_headers [] = some []
  build_headers ((k, v) ∷ headers) =
      let rest = build_headers headers in
      if is_hop_by_hop (rules.to_lowercase k)
      then rest
      else if rules.is_header_value (utf8 v)
      then (elim (rules.header_name k) [
        | none ↦ none
        | some name ↦ elim rest [ none ↦ none | some hs ↦ some ((name, utf8 v) ∷ hs) ]
      ])
      else rest

  unfoldable pub build_response : ℕ → HashMap Text Text → Bytes → Response
  unfolding build_headers
  build_response status headers body = elim (build_headers headers) [
    | none ↦ empty_response
    | some hs ↦ record { status = status_or status 200; headers = hs; body = body }
  ]

  -- The sleep is left out. A value that is no header value becomes `true`.
  unfoldable pub serve_mock_response : Answer → Response
  unfolding build_response utf8
  serve_mock_response a =
      let r = build_response a.status a.headers (utf8 a.body) in
      let value = if rules.is_header_str a.extra_val then a.extra_val else codes "true" in
      record r {
        headers =
            set_header r.headers (get_or (rules.header_name a.extra_key) a.extra_key) (utf8 value);
      }

  -- The response to a reply of MOCK mode.
  unfoldable pub render : Reply → Response
  unfolding serve_mock_response
  render (served a) = serve_mock_response a
  render (missed status body) = record {
    status = status_or status 404;
    headers =
        (codes "content-type", codes "application/json")
        ∷ (codes "x-ghost-miss", codes "true")
        ∷ [];
    body = utf8 body;
  }

-- `Mode::Transitioning`.
abbrev pub transitioning_response : Response
transitioning_response = record {
  status = 503;
  headers =
      (codes "content-type", codes "application/json")
      ∷ (codes "retry-after", codes "5")
      ∷ (codes "x-ghost-transitioning", codes "true")
      ∷ [];
  body =
      codes
        "{\"status\":\"transitioning\",\"message\":\"Proxy is processing recorded traffic. Retry in a few seconds.\",\"retry_after\":5}";
}
