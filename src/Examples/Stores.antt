-- ===== src/Examples/Stores.antt =====
-- The theorems about files at a sequence, a mode and two recordings; a codec of sequences and of modes
-- stands for `serde_json`.
use gostly_ai_proxy.Base.{
  ℕ, ◌≡◌, refl, ap, ap₂, sym, ◌∙◌, Bool, true, false, Option, none, some, List, [], ◌∷◌, map, arith,
  Text, text_eq, ◌==◌, codes, nat_beq, list_beq, if◌then◌else◌,
}
use mathlib.Core.List.{append-nil}
use mathlib.Core.Option.{some-injective}
use gostly_ai_proxy.Types.{
  Mode, learn, mock, passthrough, transitioning, MockEntry, MockSequence, SequenceResponse,
  global_tenant,
}
use gostly_ai_proxy.Library.{empty_library}
use gostly_ai_proxy.Storage.{SequenceSerde, SequenceLaws, ModeSerde, load_sequences, save_sequences}
use gostly_ai_proxy.Storage.RoundTrip.{load_sequences-save_sequences}
use gostly_ai_proxy.Storage.Log.{
  IsDurable, record_entries, empty-IsDurable, record_entries-IsDurable,
}
use gostly_ai_proxy.Examples.Codec.{Codec, number, pair, list, text}
use gostly_ai_proxy.Examples.Entry.{
  moved, moved_back, moved_back-moved, moved_free, whole, serde, serde_laws,
}

abbrev Response : Type 0
Response = ℕ × (List (Text × Text) × (Text × ℕ))

abbrev Fields : Type 0
Fields = Text × (Text × (Text × (List Response × ℕ)))

abbrev fields : Codec Fields
fields = pair text (
    pair text (
      pair text
        (pair (list (pair number (pair (list (pair text text)) (pair text number)))) number)))

abbrev to_response : SequenceResponse → Response
to_response r = (r.status, (r.headers, (r.body, r.latency_ms)))

abbrev from_response : Response → SequenceResponse
from_response (status, (headers, (body, latency_ms))) = record {
  status = status;
  headers = headers;
  body = body;
  latency_ms = latency_ms;
}

from-to : (rs : List SequenceResponse) → map from_response (map to_response rs) ≡ rs
from-to [] = refl
from-to (r ∷ rs) = ap (λ (xs : List SequenceResponse). r ∷ xs) (from-to rs)

abbrev to_fields : MockSequence → Fields
to_fields s =
    (s.id, (s.method, (s.uri, (map to_response s.responses, if s.loop_responses then 1 else 0))))

abbrev from_fields : Fields → MockSequence
from_fields (id, (method, (uri, (responses, loop)))) = record {
  id = id;
  method = method;
  uri = uri;
  responses = map from_response responses;
  loop_responses = nat_beq loop 1;
}

same_bool : (b : Bool) → nat_beq (if b then 1 else 0) 1 ≡ b
same_bool true = refl
same_bool false = refl

same_sequence : (s : MockSequence) → from_fields (to_fields s) ≡ s
same_sequence s =
    ap₂ (λ (rs : List SequenceResponse) (b : Bool). record s { responses = rs; loop_responses = b })
      (from-to s.responses) (same_bool s.loop_responses)

abbrev sequence_of : Option Fields → Option MockSequence
sequence_of none = none
sequence_of (some f) = some (from_fields f)

abbrev sequence_serde : SequenceSerde
sequence_serde = record {
  parse = λ l. sequence_of (whole (fields.read (moved_back l)));
  print = λ s. some (moved (fields.write (to_fields s)));
}

parse_printed :
    (s : MockSequence) → sequence_serde.parse (moved (fields.write (to_fields s))) ≡ some s
parse_printed s =
    ap (λ (t : Text). sequence_of (whole (fields.read t)))
      (moved_back-moved (fields.write (to_fields s)))
    ∙ ap (λ (t : Text). sequence_of (whole (fields.read t)))
        (sym (append-nil (fields.write (to_fields s))))
    ∙ ap (λ (o : Option (Fields × Text)). sequence_of (whole o))
        (fields.read-write (to_fields s) [])
    ∙ ap (λ (x : MockSequence). some x) (same_sequence s)

sequence_laws : SequenceLaws sequence_serde
sequence_laws = record {
  parse-print =
      λ s l h. rw (← some-injective (moved (fields.write (to_fields s))) l h) (parse_printed s);
  prints = λ s. (moved (fields.write (to_fields s)), refl);
  print_clean = λ s l h. rw (← some-injective (moved (fields.write (to_fields s))) l h) (
    moved_free 10 (fields.write (to_fields s)) (omega arith),
    moved_free 13 (fields.write (to_fields s)) (omega arith),
  );
}

abbrev polling : MockSequence
polling = record {
  id = codes "poll";
  method = codes "GET";
  uri = codes "/jobs/1";
  responses = record { status = 202; headers = []; body = codes "wait"; latency_ms = 5 } ∷ [];
  loop_responses = true;
}

load_sequences-save_sequences_example :
    load_sequences sequence_serde (save_sequences sequence_serde true none (polling ∷ polling ∷ []))
    ≡ polling ∷ polling ∷ []
load_sequences-save_sequences_example =
    load_sequences-save_sequences sequence_serde sequence_laws none (polling ∷ polling ∷ [])

abbrev parse_mode : Text → Option Mode
parse_mode t =
    if t == codes "\"LEARN\""
    then some learn
    else if t == codes "\"MOCK\""
    then some mock
    else if t == codes "\"PASSTHROUGH\""
    then some passthrough
    else if t == codes "\"TRANSITIONING\""
    then some transitioning
    else none

mode_serde : ModeSerde
unfolding list_beq
mode_serde = record {
  parse = parse_mode;
  parse_learn = refl;
  parse_mock = refl;
  parse_passthrough = refl;
}

abbrev paid : MockEntry
paid = record {
  id = codes "e1";
  timestamp = codes "now";
  request = record { method = codes "GET"; uri = codes "/orders/17"; body = [] };
  response = record { status = 200; headers = []; body = codes "ok"; latency_ms = 1 };
  service_id = some (codes "pay");
  tenant = global_tenant;
  workload_class = codes "human";
}

abbrev recordings : List (Text × MockEntry)
recordings =
    (codes "pay", paid)
    ∷ (global_tenant, record paid { service_id = none })
    ∷ (codes "pay", record paid { id = codes "e2" })
    ∷ []

record_entries-IsDurable_example :
    IsDurable serde serde_laws
      (record_entries serde serde_laws (empty_library, []) recordings).0
      (record_entries serde serde_laws (empty_library, []) recordings).1
record_entries-IsDurable_example =
    record_entries-IsDurable serde serde_laws recordings (empty_library, [])
      (empty-IsDurable serde serde_laws)
