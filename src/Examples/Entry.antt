-- ===== src/Examples/Entry.antt =====
-- Mock entries as lines: the codec with every code point moved past the control characters, so that
-- no line end is written.
use gostly_ai_proxy.Base.{
  ℕ, ◌+◌, ◌-◌, ◌≤◌, ◌≡◌, refl, ap, sym, ◌∙◌, false, Option, none, some, List, [], ◌∷◌, map, arith,
  Text, has,
}
use mathlib.Core.List.{append-nil}
use mathlib.Core.Option.{some-injective}
use gostly_ai_proxy.Types.{MockEntry}
use gostly_ai_proxy.Library.Reload.{Serde, SerdeLaws}
use gostly_ai_proxy.Examples.Codec.{Codec, number, pair, list, option, text}

abbrev Fields : Type 0
Fields =
    Text
    × (Text
        × ((Text × (Text × Text))
            × ((ℕ × (List (Text × Text) × (Text × ℕ))) × (Option Text × (Text × Text)))))

abbrev fields : Codec Fields
fields = pair text (
    pair text (
      pair (pair text (pair text text)) (
        pair (pair number (pair (list (pair text text)) (pair text number)))
          (pair (option text) (pair text text)))))

abbrev to_fields : MockEntry → Fields
to_fields e = (
  e.id,
  (
    e.timestamp,
    (
      (e.request.method, (e.request.uri, e.request.body)),
      (
        (e.response.status, (e.response.headers, (e.response.body, e.response.latency_ms))),
        (e.service_id, (e.tenant, e.workload_class)),
      ),
    ),
  ),
)

abbrev from_fields : Fields → MockEntry
from_fields (id, (timestamp, ((m, (u, b)), ((st, (hs, (rb, lat))), (svc, (ten, wl)))))) = record {
  id = id;
  timestamp = timestamp;
  request = record { method = m; uri = u; body = b };
  response = record { status = st; headers = hs; body = rb; latency_ms = lat };
  service_id = svc;
  tenant = ten;
  workload_class = wl;
}

abbrev pub moved : Text → Text
moved = map (λ c. c + 32)

abbrev pub moved_back : Text → Text
moved_back = map (λ c. c - 32)

pub moved_back-moved : (t : Text) → moved_back (moved t) ≡ t
moved_back-moved [] = refl
moved_back-moved (c ∷ t) = cc (moved_back-moved t, back c)
  where
    back : (c : ℕ) → c + 32 - 32 ≡ c
    back c = omega arith

pub moved_free : (n : ℕ) (t : Text) → n ≤ 31 → has n (moved t) ≡ false
unfolding has
moved_free n [] h = refl
moved_free n (c ∷ t) h = ground (arith, moved_free n t h, h)

abbrev pub whole : {A : Type 0} → Option (A × Text) → Option A
whole (some (a, [])) = some a
whole _ = none

abbrev entry_of : Option Fields → Option MockEntry
entry_of none = none
entry_of (some f) = some (from_fields f)

abbrev pub serde : Serde
serde = record {
  parse = λ l. entry_of (whole (fields.read (moved_back l)));
  print = λ e. some (moved (fields.write (to_fields e)));
}

parse_printed : (e : MockEntry) → serde.parse (moved (fields.write (to_fields e))) ≡ some e
parse_printed e =
    ap (λ (t : Text). entry_of (whole (fields.read t)))
      (moved_back-moved (fields.write (to_fields e)))
    ∙ ap (λ (t : Text). entry_of (whole (fields.read t)))
        (sym (append-nil (fields.write (to_fields e))))
    ∙ ap (λ (o : Option (Fields × Text)). entry_of (whole o)) (fields.read-write (to_fields e) [])

pub serde_laws : SerdeLaws serde
serde_laws = record {
  parse-print =
      λ e l h. rw (← some-injective (moved (fields.write (to_fields e))) l h) (parse_printed e);
  prints = λ e. (moved (fields.write (to_fields e)), refl);
  print_clean = λ e l h. rw (← some-injective (moved (fields.write (to_fields e))) l h) (
    moved_free 10 (fields.write (to_fields e)) (omega arith),
    moved_free 13 (fields.write (to_fields e)) (omega arith),
  );
}
