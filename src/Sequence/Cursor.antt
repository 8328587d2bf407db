-- ===== src/Sequence/Cursor.antt =====
-- Which response of a sequence each call serves.
use gostly_ai_proxy.Base.{
  ℕ, zero, suc, ◌-◌, ◌+◌, ◌%◌, ◌^◌, ◌≤◌, ◌<◌, min, ◌≡◌, refl, ap, sym, ◌∙◌, Bool, false, Option,
  none, some, List, arith, Text, text_eq, ◌==◌, nat_eq, if◌then◌else◌, find, length, get_elem?,
  Bool-cases, inl, inr,
}
use native.Mathlib.Nat.{suc-mod, mod-lt, mod-eq_of_lt}
use mathlib.Core.Option.{get_or}
use gostly_ai_proxy.Base.HashMap
use gostly_ai_proxy.Base.HashMap.{HashMap, get-insert, get-insert_self, get-remove}
use gostly_ai_proxy.Types.{MockSequence, SequenceResponse}
use gostly_ai_proxy.Sequence.{
  Counters, as_u32, is_for, next_counter, serve_next, find_sequence_response, handle_reset_sequence,
}

-- Where a sequence stands after so many calls, looping or stopped at its last response.
abbrev pub position : MockSequence → ℕ → ℕ
position s k = if s.loop_responses then k % length s.responses else min k (length s.responses - 1)

-- The counter after so many calls.
abbrev counter : MockSequence → ℕ → ℕ
counter s k = if s.loop_responses then k % length s.responses else k

next_counter-counter :
    (s : MockSequence) (k : ℕ)
    → 0 < length s.responses
    → length s.responses ≤ 2 ^ 32
    → k + 1 < 2 ^ 32
    → next_counter s (counter s k + 1) ≡ counter s (suc k)
unfolding next_counter
next_counter-counter s k some_there few_there early = elim (Bool-cases s.loop_responses) [
  | inl looping ↦
      let bound = mod-lt (suc k) some_there in
      rw looping (
        ap (λ (i : ℕ). as_u32 (i % length s.responses)) (omega arith)
        ∙ ap as_u32 (sym (suc-mod k (length s.responses)))
        ∙ mod-eq_of_lt (omega (arith, bound, few_there)))
  | inr stops ↦ rw stops (mod-eq_of_lt early ∙ omega arith)
]

module _ (wide : ℕ → Bool) (seqs : List MockSequence) (method uri : Text) where
  -- The counters after so many requests.
  abbrev pub after_calls : ℕ → Counters → Counters
  after_calls zero counters = counters
  after_calls (suc k) counters =
      (find_sequence_response wide seqs (after_calls k counters) method uri).1

  module _ (s : MockSequence) where
    find_sequence_response_found :
        (counters : Counters)
        → find (is_for wide method uri) seqs ≡ some s
        → 0 < length s.responses
        → find_sequence_response wide seqs counters method uri ≡ (
          get_elem? s.responses
              (min (get_or (HashMap.get counters s.id) 0) (length s.responses - 1)),
          HashMap.insert counters s.id (next_counter s (get_or (HashMap.get counters s.id) 0 + 1)),
        )
    unfolding find_sequence_response
    find_sequence_response_found counters found some_there =
        let has_some : (length s.responses == 0) ≡ false = ground arith in
        rw (found, find_sequence_response) (rw (has_some, serve_next) refl)

    after_calls-counter :
        (k : ℕ) (counters : Counters)
        → find (is_for wide method uri) seqs ≡ some s
        → 0 < length s.responses
        → length s.responses ≤ 2 ^ 32
        → k < 2 ^ 32
        → get_or (HashMap.get counters s.id) 0 ≡ 0
        → get_or (HashMap.get (after_calls k counters) s.id) 0 ≡ counter s k
    after_calls-counter zero counters found some_there few_there early fresh =
        elim (Bool-cases s.loop_responses) [
          | inl looping ↦ rw looping (fresh ∙ sym (mod-eq_of_lt some_there))
          | inr stops ↦ rw stops fresh
        ]
    after_calls-counter (suc k) counters found some_there few_there early fresh =
        let before =
          after_calls-counter k counters found some_there few_there (omega (arith, early)) fresh in
        let now = get_or (HashMap.get (after_calls k counters) s.id) 0 in
        ap (λ (r : Option SequenceResponse × Counters). get_or (HashMap.get r.1 s.id) 0)
          (find_sequence_response_found (after_calls k counters) found some_there)
        ∙ ap (λ (o : Option ℕ). get_or o 0)
            (get-insert_self (after_calls k counters) s.id (next_counter s (now + 1)))
        ∙ ap (λ (n : ℕ). next_counter s (n + 1)) before
        ∙ next_counter-counter s k some_there few_there (omega (arith, early))

    counter-position :
        (k : ℕ) → 0 < length s.responses → min (counter s k) (length s.responses - 1) ≡ position s k
    counter-position k some_there = elim (Bool-cases s.loop_responses) [
      | inl looping ↦ let bound = mod-lt k some_there in rw looping (omega (arith, bound))
      | inr stops ↦ rw stops refl
    ]

    -- Where a sequence is the first for the request, has between 1 and 2 ^ 32 responses and starts
    -- with no counter or zero, the call after k earlier ones, k below 2 ^ 32, serves the response
    -- at k modulo the length if the sequence loops, and at the lesser of k and the last index if it
    -- does not.
    pub find_sequence_response_nth :
        (k : ℕ) (counters : Counters)
        → find (is_for wide method uri) seqs ≡ some s
        → 0 < length s.responses
        → length s.responses ≤ 2 ^ 32
        → k < 2 ^ 32
        → get_or (HashMap.get counters s.id) 0 ≡ 0
        → (find_sequence_response wide seqs (after_calls k counters) method uri).0
          ≡ get_elem? s.responses (position s k)
    find_sequence_response_nth k counters found some_there few_there early fresh =
        ap (λ (r : Option SequenceResponse × Counters). r.0)
          (find_sequence_response_found (after_calls k counters) found some_there)
        ∙ ap (λ (n : ℕ). get_elem? s.responses (min n (length s.responses - 1)))
            (after_calls-counter k counters found some_there few_there early fresh)
        ∙ ap (get_elem? s.responses) (counter-position k some_there)

-- A reset starts the sequence of that name over and leaves the counter of every other one.
pub handle_reset_sequence-get :
    (id : Text) (seqs : List MockSequence) (counters : Counters) (id' : Text)
    → HashMap.get (handle_reset_sequence id (seqs, counters)).1 id'
      ≡ (if id == id' then none else HashMap.get counters id')
unfolding handle_reset_sequence
handle_reset_sequence-get id seqs counters id' = get-remove counters id id'
