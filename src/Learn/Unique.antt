-- ===== src/Learn/Unique.antt =====
-- The ids of the traffic log (src/main.rs): a time that collides is told apart by the counter.
use gostly_ai_proxy.Base.{
  ℕ, ◌≡◌, refl, ap₂, true, [], ◌∷◌, ◌++◌, arith, Text, All, is_ascii_digit, to_string,
  to_string_injective, to_string-digits,
}
use mathlib.Core.List.{head-eq_of_cons-eq, tail-eq_of_cons-eq}
use gostly_ai_proxy.Base.{
  ◌+◌, ◌^◌, ◌≤◌, ◌≢◌, ◌<◌, ◌∙◌, ap, text_eq, length, none, some, List, map, Option-cases, inl, inr,
  All-map,
}
use gostly_ai_proxy.Types.{MockEntry}
use gostly_ai_proxy.State.{Platform, AppState}
use gostly_ai_proxy.Learn.{traffic_id, line_of}
use gostly_ai_proxy.Learn.TrafficLines.{
  traffic_lines, traffic_lines-append, Recording, recorded, record_all, logged, lines-recorded,
  counter-recorded,
}

-- Two texts of digits that are followed by an underscore and a rest each.
untied :
    (a a' b b' : Text)
    → All (λ c. is_ascii_digit c ≡ true) a
    → All (λ c. is_ascii_digit c ≡ true) a'
    → a ++ b'_' ∷ b ≡ a' ++ b'_' ∷ b'
    → (a ≡ a') × (b ≡ b')
untied [] [] b b' d d' h = (refl, tail-eq_of_cons-eq h)
untied [] (c ∷ a') b b' d (digit, d') h =
    let here = head-eq_of_cons-eq h in absurd (ground (arith, here, digit))
untied (c ∷ a) [] b b' (digit, d) d' h =
    let here = head-eq_of_cons-eq h in absurd (ground (arith, here, digit))
untied (c ∷ a) (c' ∷ a') b b' (digit, d) (digit', d') h =
    let (same, rest) = untied a a' b b' d d' (tail-eq_of_cons-eq h) in
    (ap₂ (λ (x : ℕ) (xs : Text). x ∷ xs) (head-eq_of_cons-eq h) same, rest)

traffic_id_injective :
    (ts ts' seq seq' : ℕ) → traffic_id ts seq ≡ traffic_id ts' seq' → (ts ≡ ts') × (seq ≡ seq')
unfolding traffic_id
traffic_id_injective ts ts' seq seq' h =
    let (times, counts) =
      untied (to_string ts) (to_string ts') (to_string seq) (to_string seq') (to_string-digits ts)
        (to_string-digits ts') h in
    (to_string_injective ts ts' times, to_string_injective seq seq' counts)

-- Every id is one of a counter that is not below a bound; no id is there twice.
abbrev FromOn : ℕ → List MockEntry → Type 0
FromOn c = All (λ (e : MockEntry). (ts : ℕ) × (seq : ℕ) × (c ≤ seq) × (e.id ≡ traffic_id ts seq))

abbrev pub HasOwnIds : List MockEntry → Type 0
HasOwnIds [] = Unit
HasOwnIds (e ∷ es) = All (λ (e' : MockEntry). e.id ≢ e'.id) es × HasOwnIds es

apart :
    (ts c : ℕ) (e : MockEntry)
    → (ts' : ℕ) × (seq : ℕ) × (c + 1 ≤ seq) × (e.id ≡ traffic_id ts' seq)
    → traffic_id ts c ≢ e.id
apart ts c e (ts', seq, later, id) same =
    let (times, counts) = traffic_id_injective ts ts' c seq (same ∙ id) in
    omega (arith, counts, later)

module _ {F : Type 0} (p : Platform F) where
  run_ids :
      (st : AppState F) (xs : List (Recording F))
      → st.entry_counter + length xs < 2 ^ 64
      → (es : List MockEntry) × (traffic_lines (record_all p st xs) ≡ map (line_of p) es)
        × FromOn st.entry_counter es
        × HasOwnIds es
  run_ids st [] fits = ([], refl, tt, tt)
  run_ids st (x ∷ xs) fits = elim (Option-cases x.routed.asked.resolved_service_id) [
    | inl direct ↦
        let same = counter-recorded p st x none direct in
        let (es, lines, from, own) = run_ids (recorded p st x).0 xs (omega (arith, same, fits)) in
        (
          es,
          traffic_lines-append (recorded p st x).1 (record_all p (recorded p st x).0 xs)
              ∙ ap (λ (ls : List Text). ls ++ traffic_lines (record_all p (recorded p st x).0 xs))
                  (lines-recorded p st x none direct)
              ∙ lines,
          rw (← same) from,
          own,
        )
    | inr (svc, at) ↦
        let next : (recorded p st x).0.entry_counter ≡ st.entry_counter + 1 =
          counter-recorded p st x (some svc) at ∙ omega (arith, fits) in
        let (es, lines, from, own) = run_ids (recorded p st x).0 xs (omega (arith, next, fits)) in
        let beyond : FromOn (st.entry_counter + 1) es = rw (← next) from in
        (
          logged p st x (some svc) ++ es,
          traffic_lines-append (recorded p st x).1 (record_all p (recorded p st x).0 xs)
              ∙ ap (λ (ls : List Text). ls ++ traffic_lines (record_all p (recorded p st x).0 xs))
                  (lines-recorded p st x (some svc) at)
              ∙ ap (λ (ls : List Text). map (line_of p) (logged p st x (some svc)) ++ ls) lines,
          (
            (x.clock.traffic_millis, st.entry_counter, omega arith, refl),
            All-map (λ e (ts, seq, bound, id). (ts, seq, omega (arith, bound), id)) es beyond,
          ),
          (All-map (apart x.clock.traffic_millis st.entry_counter) es beyond, own),
        )
  ]

  -- No two lines of the traffic log have the same id. The lines that a run of recordings gives to the
  -- log, of whatever requests, responses and times, are those of entries no two of which share an
  -- id, as long as the counter does not wrap in the run: where its value and the number of recordings
  -- add up to less than 2^64.
  pub record_all-HasOwnIds :
      (st : AppState F) (xs : List (Recording F))
      → st.entry_counter + length xs < 2 ^ 64
      → (es : List MockEntry) × (traffic_lines (record_all p st xs) ≡ map (line_of p) es)
        × HasOwnIds es
  record_all-HasOwnIds st xs fits =
      let (es, lines, from, own) = run_ids st xs fits in (es, lines, own)
