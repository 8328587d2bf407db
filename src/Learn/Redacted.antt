-- ===== src/Learn/Redacted.antt =====
-- Redaction (src/main.rs): the floor of header names, the additions of the environment at start-up,
-- and that what LEARN mode stores or logs has the value of no such header.
use gostly_ai_proxy.Base.{
  ℕ, ◌≡◌, refl, ap, Bool, true, false, Option, none, some, List, [], ◌∷◌, ◌++◌, map, arith, Text,
  text_eq, ◌==◌, eq_iff, eq_refl, codes, any, All, All-map, Bool-cases, ◌⊎◌, inl, inr, split, trim,
  if◌then◌else◌,
}
use gostly_ai_proxy.Base.HashMap.{HashMap}
use gostly_ai_proxy.Http.{Bytes}
use gostly_ai_proxy.Types.{MockEntry}
use gostly_ai_proxy.State.{
  Platform, AppState, Routed, Clock, Task, append_to_mock_log, append_to_traffic_log,
  append_wide_event, capture,
}
use gostly_ai_proxy.Learn.{redacted_marker, redact_stored, effective_redact, learned_entry, line_of}

-- `REDACT_FLOOR`.
abbrev pub redact_floor : List Text
redact_floor =
    codes "authorization"
    ∷ codes "proxy-authorization"
    ∷ codes "cookie"
    ∷ codes "set-cookie"
    ∷ codes "x-api-key"
    ∷ codes "x-auth-token"
    ∷ codes "x-session-id"
    ∷ codes "x-access-token"
    ∷ codes "x-user-token"
    ∷ codes "x-csrf-token"
    ∷ codes "x-amz-security-token"
    ∷ codes "x-amz-session-token"
    ∷ codes "x-goog-api-key"
    ∷ codes "grpc-metadata-authorization"
    ∷ codes "api-key"
    ∷ codes "token"
    ∷ []

abbrev pub is_among : List Text → Text → Bool
is_among names name = any (λ n. n == name) names

abbrev insert_name : List Text → Text → List Text
insert_name names [] = names
insert_name names (c ∷ cs) = if is_among names (c ∷ cs) then names else (c ∷ cs) ∷ names

abbrev add_extras : (Text → Text) → List Text → List Text → List Text
add_extras lower names [] = names
add_extras lower names (h ∷ hs) = add_extras lower (insert_name names (lower (trim h))) hs

-- The list of start-up, with the value of `REDACT_HEADERS`.
unfoldable pub initial_redact_headers : (Text → Text) → Option Text → List Text
unfolding split trim
initial_redact_headers lower none = redact_floor
initial_redact_headers lower (some extras) = add_extras lower redact_floor (split b',' extras)

-- A list of names that has every name of the floor.
abbrev pub CoversFloor : List Text → Type 0
CoversFloor names = All (λ (h : Text). is_among names h ≡ true) redact_floor

-- The names of the floor are in lower case, which `to_lowercase` leaves as they are.
abbrev pub KeepsFloor : (Text → Text) → Type 0
KeepsFloor lower = All (λ (h : Text). lower h ≡ h) redact_floor

insert_name-among :
    (names : List Text) (h x : Text)
    → is_among names x ≡ true
    → is_among (insert_name names h) x ≡ true
insert_name-among names [] x k = k
insert_name-among names (c ∷ cs) x k = ground (arith, k)

add_extras-CoversFloor :
    (lower : Text → Text) (names hs : List Text)
    → CoversFloor names
    → CoversFloor (add_extras lower names hs)
add_extras-CoversFloor lower names [] h = h
add_extras-CoversFloor lower names (e ∷ es) h =
    add_extras-CoversFloor lower (insert_name names (lower (trim e))) es
      (All-map (λ x. insert_name-among names (lower (trim e)) x) redact_floor h)

among_self : (names : List Text) → All (λ (h : Text). is_among names h ≡ true) names
among_self [] = tt
among_self (n ∷ names) =
    (ground (arith, eq_refl n), All-map (λ x k. ground (arith, k)) names (among_self names))

floor_covered : CoversFloor redact_floor
floor_covered = among_self redact_floor

-- Whatever `REDACT_HEADERS` says, the list of start-up has every name of the floor.
pub initial_redact_headers-CoversFloor :
    (lower : Text → Text) (extras : Option Text) → CoversFloor (initial_redact_headers lower extras)
unfolding initial_redact_headers
initial_redact_headers-CoversFloor lower none = floor_covered
initial_redact_headers-CoversFloor lower (some extras) =
    add_extras-CoversFloor lower redact_floor (split b',' extras) floor_covered

among_All {ℓ} :
    (P : Text → Type ℓ) (names : List Text) (x : Text) → All P names → is_among names x ≡ true → P x
among_All P [] x h k = cc
among_All P (n ∷ names) x (p, h) k = elim (Bool-cases (n == x)) [
  | inl same ↦ rw (← (eq_iff n x).0 same) p
  | inr other ↦ among_All P names x h (rw other at k)
]

among-map :
    (f : Text → Text) (names more : List Text) (x : Text)
    → is_among names x ≡ true
    → is_among (map f (names ++ more)) (f x) ≡ true
among-map f [] more x h = cc
among-map f (n ∷ names) more x h = elim (Bool-cases (n == x)) [
  | inl same ↦
      let here : f n ≡ f x = ap f ((eq_iff n x).0 same) in ground (arith, eq_iff (f n) (f x))
  | inr other ↦ let later = among-map f names more x (rw other at h) in ground (arith)
]

-- A header whose name is in the floor, in whatever case, has the marker for a value.
abbrev pub IsMasked : (Text → Text) → Text × Text → Type 0
IsMasked lower (k, v) = is_among redact_floor (lower k) ≡ true → v ≡ redacted_marker

abbrev pub IsRedacted : (Text → Text) → MockEntry → Type 0
IsRedacted lower e = All (IsMasked lower) e.response.headers

redact-IsMasked :
    (lower : Text → Text) (k v : Text) (listed : Bool)
    → (is_among redact_floor (lower k) ≡ true → listed ≡ true)
    → IsMasked lower (if listed then (k, redacted_marker) else (k, v))
redact-IsMasked lower k v true covers floor = refl
redact-IsMasked lower k v false covers floor = let wrong = covers floor in cc

redact_stored-IsMasked :
    (lower : Text → Text) (names : List Text) (headers : HashMap Text Text)
    → ((k : Text) → is_among redact_floor k ≡ true → is_among names k ≡ true)
    → All (IsMasked lower) (redact_stored lower names headers)
unfolding redact_stored
redact_stored-IsMasked lower names [] covers = tt
redact_stored-IsMasked lower names ((k, v) ∷ headers) covers = (
  redact-IsMasked lower k v (is_among names (lower k)) (covers (lower k)),
  redact_stored-IsMasked lower names headers covers,
)

-- Headers after redaction: the same names in the same order, each value as it was or the marker, and
-- the marker for the names of the floor.
abbrev pub Masked : (Text → Text) → HashMap Text Text → HashMap Text Text → Type 0
Masked lower [] [] = Unit
Masked lower [] (h ∷ hs) = ⊥
Masked lower (h ∷ hs) [] = ⊥
Masked lower ((k, v) ∷ hs) ((k', v') ∷ hs') =
    (k' ≡ k)
    × ((v' ≡ v) ⊎ (v' ≡ codes "[REDACTED]"))
    × IsMasked lower (k', v')
    × Masked lower hs hs'

abbrev SameName : Text × Text → Text × Text → Type 0
SameName (k, v) (k', v') = (k' ≡ k) × ((v' ≡ v) ⊎ (v' ≡ codes "[REDACTED]"))

redact-SameName :
    (k v : Text) (listed : Bool) → SameName (k, v) (if listed then (k, redacted_marker) else (k, v))
redact-SameName k v true = (refl, inr refl)
redact-SameName k v false = (refl, inl refl)

redact_stored-Masked :
    (lower : Text → Text) (names : List Text) (headers : HashMap Text Text)
    → ((k : Text) → is_among redact_floor k ≡ true → is_among names k ≡ true)
    → Masked lower headers (redact_stored lower names headers)
unfolding redact_stored
redact_stored-Masked lower names [] covers = tt
redact_stored-Masked lower names ((k, v) ∷ headers) covers =
    let (named, valued) = redact-SameName k v (is_among names (lower k)) in
    (
      named,
      valued,
      redact-IsMasked lower k v (is_among names (lower k)) (covers (lower k)),
      redact_stored-Masked lower names headers covers,
    )

-- The names that are redacted have those of the floor, whatever a service adds.
floor_effective :
    (lower : Text → Text) (names more : List Text) (k : Text)
    → CoversFloor names
    → KeepsFloor lower
    → is_among redact_floor k ≡ true
    → is_among (map lower (names ++ more)) k ≡ true
floor_effective lower names more k covers keeps floor =
    let there = among_All (λ x. is_among names x ≡ true) redact_floor k covers floor in
    let same = among_All (λ x. lower x ≡ x) redact_floor k keeps floor in
    let mapped = among-map lower names more k there in rw same at mapped

module _ {F : Type 0} (p : Platform F) where
  pub learned_entry-IsRedacted :
      (st : AppState F) (r : Routed F) (clock : Clock) (status : ℕ) (headers : HashMap Text Text)
      (bytes : Bytes)
      → CoversFloor st.redact_headers
      → KeepsFloor p.rules.to_lowercase
      → IsRedacted p.rules.to_lowercase (learned_entry p st r clock status headers bytes)
  unfolding learned_entry
  learned_entry-IsRedacted st r clock status headers bytes covers keeps =
      redact_stored-IsMasked p.rules.to_lowercase (effective_redact p st r) headers (λ k floor.
        floor_effective p.rules.to_lowercase st.redact_headers r.service_redact_headers k covers
          keeps floor)

  pub learned_entry-Masked :
      (st : AppState F) (r : Routed F) (clock : Clock) (status : ℕ) (headers : HashMap Text Text)
      (bytes : Bytes)
      → CoversFloor st.redact_headers
      → KeepsFloor p.rules.to_lowercase
      → Masked p.rules.to_lowercase headers
          (learned_entry p st r clock status headers bytes).response.headers
  unfolding learned_entry
  learned_entry-Masked st r clock status headers bytes covers keeps =
      redact_stored-Masked p.rules.to_lowercase (effective_redact p st r) headers (λ k floor.
        floor_effective p.rules.to_lowercase st.redact_headers r.service_redact_headers k covers
          keeps floor)

  -- A line that is spawned for a log is that of a redacted entry.
  abbrev IsLineOf : Text → Type 0
  IsLineOf line = (e : MockEntry) × IsRedacted p.rules.to_lowercase e × (line ≡ line_of p e)

  abbrev pub IsSafe : Task → Type 0
  IsSafe (append_to_mock_log svc line) = IsLineOf line
  IsSafe (append_to_traffic_log svc line) = IsLineOf line
  IsSafe (append_wide_event event) = Unit
  IsSafe (capture svc collection body content_type status) = Unit
