-- ===== src/Examples/Sequences.antt =====
-- The sequence theorems at a sequence of two responses.
use gostly_ai_proxy.Base.{
  ℕ, ◌≡◌, refl, Bool, true, false, some, [], ◌∷◌, arith, codes, list_beq, text_eq, get_elem?, find,
}
use mathlib.Core.Option.{get_or}
use gostly_ai_proxy.Base.HashMap
use gostly_ai_proxy.Types.{MockSequence, SequenceResponse}
use gostly_ai_proxy.Sequence.{find_sequence_response, is_for}
use gostly_ai_proxy.Sequence.Cursor.{position, after_calls, find_sequence_response_nth}

abbrev no_wide : ℕ → Bool
no_wide c = false

abbrev response : ℕ → SequenceResponse
response status = record { status = status; headers = []; body = codes "ok"; latency_ms = 0 }

abbrev polling : MockSequence
polling = record {
  id = codes "poll";
  method = codes "GET";
  uri = codes "/jobs/1";
  responses = response 202 ∷ response 200 ∷ [];
  loop_responses = true;
}

found : find (is_for no_wide (codes "GET") (codes "/jobs/1")) (polling ∷ []) ≡ some polling
unfolding list_beq
found = refl

no_counter : get_or (HashMap.get {V = ℕ} [] (codes "poll")) 0 ≡ 0
unfolding HashMap.get
no_counter = refl

find_sequence_response_nth_example :
    (find_sequence_response no_wide
      (polling ∷ [])
      (after_calls no_wide (polling ∷ []) (codes "GET") (codes "/jobs/1") 3 [])
      (codes "GET")
      (codes "/jobs/1")).0
    ≡ get_elem? polling.responses (position polling 3)
find_sequence_response_nth_example =
    find_sequence_response_nth no_wide (polling ∷ []) (codes "GET") (codes "/jobs/1") polling 3 []
      found (omega arith) (omega arith) (omega arith) no_counter
