-- ===== src/Sequence.antt =====
-- Response sequences: `find_sequence_response` (src/matcher.rs) and the handlers of
-- `/ghost/sequences` (src/main.rs). The counters are the map that the write lock guards, passed on.
pub mod Cursor
use gostly_ai_proxy.Base.{
  ℕ, ◌-◌, ◌+◌, ◌%◌, ◌^◌, min, Bool, not, ◌&&◌, ◌||◌, Option, none, some, List, [], ◌∷◌, ◌++◌, Text,
  text_eq, nat_eq, ◌==◌, if◌then◌else◌, find, length, get_elem?, retain,
}
use mathlib.Core.Option.{get_or}
use gostly_ai_proxy.Base.HashMap
use gostly_ai_proxy.Base.HashMap.{HashMap}
use gostly_ai_proxy.Types.{MockSequence, SequenceResponse}
use gostly_ai_proxy.Uri.{paths_match}

abbrev pub Counters : Type 0
Counters = HashMap Text ℕ

-- `as u32`.
abbrev pub as_u32 : ℕ → ℕ
as_u32 n = n % 2 ^ 32

-- The counter that a call leaves: `next` is the counter it found plus one.
unfoldable pub next_counter : MockSequence → ℕ → ℕ
next_counter seq next =
    if seq.loop_responses then as_u32 (next % length seq.responses) else as_u32 next

module _ (wide : ℕ → Bool) where
  abbrev pub is_for : Text → Text → MockSequence → Bool
  is_for method uri s = s.method == method && (s.uri == uri || paths_match wide s.uri uri)

  -- The answer of the sequence that `find` chose, and the counters after it.
  unfoldable pub serve_next : MockSequence → Counters → Option SequenceResponse × Counters
  unfolding next_counter
  serve_next seq counters =
      if length seq.responses == 0
      then (none, counters)
      else let current = get_or (HashMap.get counters seq.id) 0 in
        let idx = min current (length seq.responses - 1) in
        (
          get_elem? seq.responses idx,
          HashMap.insert counters seq.id (next_counter seq (current + 1)),
        )

  unfoldable pub find_sequence_response :
      List MockSequence → Counters → Text → Text → Option SequenceResponse × Counters
  unfolding serve_next paths_match
  find_sequence_response seqs counters method uri = elim (find (is_for method uri) seqs) [
    | none ↦ (none, counters)
    | some seq ↦ serve_next seq counters
  ]

-- The handlers, on the list of sequences and the counters.
abbrev pub SequenceState : Type 0
SequenceState = List MockSequence × Counters

abbrev pub without_id : Text → List MockSequence → List MockSequence
without_id id seqs = retain (λ s. not (s.id == id)) seqs

unfoldable pub handle_create_sequence : MockSequence → SequenceState → SequenceState
handle_create_sequence seq (seqs, counters) = (without_id seq.id seqs ++ seq ∷ [], counters)

unfoldable pub handle_reset_sequence : Text → SequenceState → SequenceState
handle_reset_sequence id (seqs, counters) = (seqs, HashMap.remove counters id)

unfoldable pub handle_delete_sequence : Text → SequenceState → SequenceState
handle_delete_sequence id (seqs, counters) = (without_id id seqs, HashMap.remove counters id)
