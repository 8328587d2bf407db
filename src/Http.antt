-- ===== src/Http.antt =====
-- What the handlers read of `axum::http`, a crate: the headers of a request enter as the answers
-- that they give. `get_str` is `headers.get(name).and_then(|v| v.to_str().ok())`.
use gostly_ai_proxy.Base.{ℕ, Bool, Option, List, Text}

abbrev pub Bytes : Type 0
Bytes = List ℕ

pub record HeaderMap : Type 0 where
  pub get_str : Text → Option Text
  pub contains_key : Text → Bool
  -- Every header, in the order of `iter()`, with the bytes of its value.
  pub entries : List (Text × Bytes)
