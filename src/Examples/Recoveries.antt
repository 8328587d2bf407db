-- ===== src/Examples/Recoveries.antt =====
-- The theorems about the resource log at a charge that is captured and refunded; a codec of resources
-- stands for `serde_json`.
use gostly_ai_proxy.Base.{ℕ, Option, none, some, List, [], ◌∷◌, Text, text_eq, pair_eq, codes}
use gostly_ai_proxy.Base.HashMap
use gostly_ai_proxy.Library.Reload.{Dir}
use gostly_ai_proxy.Json.{Json}
use gostly_ai_proxy.Json.Json.{string, object}
use gostly_ai_proxy.Json.Fields.{field, no_fields}
use gostly_ai_proxy.Statechart.Fixtures.{with_bundled_fixtures}
use gostly_ai_proxy.ResourceStore.{ResourceState, ResourceStore, new}
use gostly_ai_proxy.ResourceStore.Disk.{ResourceSerde}
use gostly_ai_proxy.ResourceStore.Disk.Recovery.{StoreOp, capture, transition, apply_ops}
use gostly_ai_proxy.Examples.Codec.{Codec, number, pair, option, text}
use gostly_ai_proxy.Examples.JsonCodec.{json}
use gostly_ai_proxy.Examples.Entry.{moved, moved_back, whole}

abbrev Fields : Type 0
Fields = Text × (Text × (Json × (Option Text × (Option Text × (ℕ × (ℕ × (ℕ × Text)))))))

abbrev fields : Codec Fields
fields = pair text (
    pair text (
      pair json
        (pair (option text) (pair (option text) (pair number (pair number (pair number text)))))))

abbrev to_fields : ResourceState → Fields
to_fields s = (
  s.collection,
  (
    s.id,
    (
      s.body,
      (s.statechart, (s.current_state, (s.created_at, (s.updated_at, (s.status, s.content_type))))),
    ),
  ),
)

abbrev from_fields : Fields → ResourceState
from_fields
      (collection, (id, (body, (statechart, (current, (created, (updated, (status, ct)))))))) =
    record {
      collection = collection;
      id = id;
      body = body;
      statechart = statechart;
      current_state = current;
      created_at = created;
      updated_at = updated;
      status = status;
      content_type = ct;
    }

abbrev state_of : Option Fields → Option ResourceState
state_of none = none
state_of (some f) = some (from_fields f)

abbrev parse : Text → Option ResourceState
parse [] = none
parse (c ∷ l) = state_of (whole (fields.read (moved_back l)))

abbrev serde : ResourceSerde
serde = record { parse = parse; print = λ s. some (b'{' ∷ moved (fields.write (to_fields s))) }

abbrev body : Json
body = object (
    field (codes "id") (string (codes "ch_1"))
      (field (codes "status") (string (codes "created")) no_fields))

abbrev store : ResourceStore
store = new (codes "data") (some with_bundled_fixtures)

abbrev operations : List StoreOp
operations =
    capture 7 (codes "pay") (codes "charges") body none none 201
    ∷ transition 8 (codes "pay") (codes "charges") (codes "ch_1") (codes "capture")
    ∷ transition 9 (codes "pay") (codes "charges") (codes "ch_2") (codes "capture")
    ∷ []

abbrev recorded : ResourceStore × Dir
recorded = apply_ops serde (store, []) operations
