-- ===== src/Chaos/Scrub.antt =====
-- What the event log can see of a path: no query, no UUID and no long number.
use gostly_ai_proxy.Base.{
  ℕ, suc, ◌≤◌, ◌<◌, ◌⊎◌, ◌==◌, not, ◌&&◌, codes, length, all, All-map, lt→ltb, utf8, utf8_char,
  is_ascii_digit, is_ascii_hexdigit, nat_eq, ◌≡◌, refl, ap, Bool, true, false, ◌||◌, List, [], ◌∷◌,
  ◌++◌, map, arith, Text, text_eq, Bool-cases, inl, inr, if◌then◌else◌, All, retain, split, join,
  has, starts_with, Free, Free-split, split-join, split-append_cons, split_free,
}
use mathlib.Core.List.{append-nil}
use mathlib.Core.Bool.{and-eq-true_iff}
use gostly_ai_proxy.Uri.{before}
use gostly_ai_proxy.Chaos.{
  uuid_bytes, id_placeholder, is_uuid, is_long_numeric, scrub_segment, scrub_segments, or_root,
  scrub_path,
}

abbrev is_written : Text → Bool
is_written [] = false
is_written (c ∷ cs) = true

-- The segments that the loop writes.
abbrev written : List Text → List Text
written segs = map scrub_segment (retain is_written segs)

-- The loop once something is written.
scrub_segments_more :
    (segs : List Text) (p : Text) → p ++ scrub_segments true segs ≡ join b'/' (p ∷ written segs)
unfolding scrub_segments join
scrub_segments_more [] p = append-nil p
scrub_segments_more ([] ∷ segs) p = scrub_segments_more segs p
scrub_segments_more ((c ∷ cs) ∷ segs) p =
    ap (λ (t : Text). p ++ b'/' ∷ t) (scrub_segments_more segs (scrub_segment (c ∷ cs)))

scrub_segments-join : (segs : List Text) → scrub_segments false segs ≡ join b'/' (written segs)
unfolding scrub_segments
scrub_segments-join [] = unfold join in refl
scrub_segments-join ([] ∷ segs) = scrub_segments-join segs
scrub_segments-join ((c ∷ cs) ∷ segs) = scrub_segments_more segs (scrub_segment (c ∷ cs))

-- The digits of a hexadecimal number.
abbrev pub IsHex : ℕ → Type 0
IsHex c = ((48 ≤ c) × (c ≤ 57)) ⊎ ((97 ≤ c) × (c ≤ 102)) ⊎ ((65 ≤ c) × (c ≤ 70))

-- A text of the shape of another: a dash where it has one, a hexadecimal digit everywhere else.
abbrev pub Fits : Text → Text → Type 0
Fits [] [] = Unit
Fits [] (c ∷ cs) = ⊥
Fits (p ∷ ps) [] = ⊥
Fits (p ∷ ps) (c ∷ cs) = (if p == 45 then c ≡ 45 else IsHex c) × Fits ps cs

abbrev pub uuid_shape : Text
uuid_shape = codes "hhhhhhhh-hhhh-hhhh-hhhh-hhhhhhhhhhhh"

abbrev pub IsLongNumber : Text → Type 0
IsLongNumber seg = (5 ≤ length seg) × All (λ c. (48 ≤ c) × (c ≤ 57)) seg

-- Neither a UUID nor a number of five digits or more.
abbrev pub IsClear : Text → Type 0
IsClear seg = (¬ Fits uuid_shape seg) × (¬ IsLongNumber seg)

utf8_ascii : (s : Text) → All (λ c. c < 128) s → utf8 s ≡ s
unfolding utf8 utf8_char
utf8_ascii [] h = refl
utf8_ascii (c ∷ s) (small, h) =
    let rest = utf8_ascii s h in let here = lt→ltb c 128 small in rw (here, rest) refl

digits_all : (s : Text) → All (λ c. (48 ≤ c) × (c ≤ 57)) s → all is_ascii_digit s ≡ true
digits_all [] h = refl
digits_all (c ∷ s) (digit, h) = ground (arith, digit, digits_all s h)

IsLongNumber-known : (seg : Text) → IsLongNumber seg → is_long_numeric seg ≡ true
unfolding is_long_numeric
IsLongNumber-known seg (long, digits) =
    let ascii = utf8_ascii seg (All-map (λ c d. omega (arith, d)) seg digits) in
    rw ascii (ground (arith, long, digits_all seg digits))

-- From an index on, `is_uuid` wants a dash exactly where a shape has one.
abbrev wants_dash : ℕ → Bool
wants_dash i = i == 8 || i == 13 || i == 18 || i == 23

abbrev agrees : ℕ → Text → Bool
agrees i [] = true
agrees i (p ∷ ps) = (if p == 45 then wants_dash i else not (wants_dash i)) && agrees (suc i) ps

hex_byte : (c : ℕ) → IsHex c → ((not (c == b'-') && is_ascii_hexdigit c) ≡ true) × (c < 128)
hex_byte c (inl digit) = (ground (arith, digit), omega (arith, digit))
hex_byte c (inr (inl lower)) = (ground (arith, lower), omega (arith, lower))
hex_byte c (inr (inr upper)) = (ground (arith, upper), omega (arith, upper))

not_wanted : (b : Bool) → not b ≡ true → b ≡ false
not_wanted true h = cc
not_wanted false h = refl

fits_byte :
    (i p c : ℕ)
    → (if p == 45 then wants_dash i else not (wants_dash i)) ≡ true
    → (if p == 45 then c ≡ 45 else IsHex c)
    → ((if wants_dash i then c == b'-' else not (c == b'-') && is_ascii_hexdigit c) ≡ true)
      × (c < 128)
fits_byte i p c agree fit = elim (Bool-cases (p == 45)) [
  | inl dash ↦
      let wanted = rw dash at agree in
      let here = rw dash at fit in rw (wanted, here) (refl, omega arith)
  | inr digit ↦
      let unwanted = rw digit at agree in
      let off = not_wanted (wants_dash i) unwanted in rw off (hex_byte c (rw digit at fit))
]

uuid_bytes-known :
    (i : ℕ) (ps cs : Text)
    → agrees i ps ≡ true
    → Fits ps cs
    → (uuid_bytes i cs ≡ true) × (length cs ≡ length ps) × All (λ c. c < 128) cs
unfolding uuid_bytes
uuid_bytes-known i [] [] agree fits = (refl, refl, tt)
uuid_bytes-known i [] (c ∷ cs) agree fits = elim fits [ ]
uuid_bytes-known i (p ∷ ps) [] agree fits = elim fits [ ]
uuid_bytes-known i (p ∷ ps) (c ∷ cs) agree (fit, fits) =
    let (now, later) =
      (and-eq-true_iff (if p == 45 then wants_dash i else not (wants_dash i)) _).0 agree in
    let (byte, small) = fits_byte i p c now fit in
    let (bytes, long, ascii) = uuid_bytes-known (suc i) ps cs later fits in
    ((and-eq-true_iff _ _).1 (byte, bytes), ap suc long, (small, ascii))

Fits-known : (seg : Text) → Fits uuid_shape seg → is_uuid seg ≡ true
unfolding is_uuid
Fits-known seg fits =
    let (bytes, long, ascii) = uuid_bytes-known 0 uuid_shape seg refl fits in
    rw (utf8_ascii seg ascii) (rw (long, bytes) refl)

clear : (seg : Text) → is_uuid seg ≡ false → is_long_numeric seg ≡ false → IsClear seg
clear seg no_uuid no_number =
    (λ fits. cc (no_uuid, Fits-known seg fits), λ long. cc (no_number, IsLongNumber-known seg long))

scrub_segment-IsClear : (seg : Text) → IsClear (scrub_segment seg)
unfolding scrub_segment
scrub_segment-IsClear seg = elim (Bool-cases (is_uuid seg || is_long_numeric seg)) [
  | inl hidden ↦
      rw hidden (clear id_placeholder (unfold is_uuid in refl) (unfold is_long_numeric in refl))
  | inr shown ↦ rw shown (clear seg (ground (arith, shown)) (ground (arith, shown)))
]

empty-IsClear : IsClear []
empty-IsClear = clear [] (unfold is_uuid in refl) (unfold is_long_numeric in refl)

Free-written : (segs : List Text) → Free b'/' segs → Free b'/' (written segs)
unfolding scrub_segment has
Free-written [] free = tt
Free-written ([] ∷ segs) (f, free) = Free-written segs free
Free-written ((c ∷ cs) ∷ segs) (f, free) = (
  elim (Bool-cases (is_uuid (c ∷ cs) || is_long_numeric (c ∷ cs))) [
    | inl hidden ↦ rw hidden refl
    | inr shown ↦ rw shown f
  ],
  Free-written segs free,
)

written-IsClear : (segs : List Text) → All IsClear (written segs)
written-IsClear [] = tt
written-IsClear ([] ∷ segs) = written-IsClear segs
written-IsClear ((c ∷ cs) ∷ segs) = (scrub_segment-IsClear (c ∷ cs), written-IsClear segs)

abbrev AllClear : Text → Type 0
AllClear t = All IsClear (split b'/' t)

join-AllClear : (ps : List Text) → Free b'/' ps → All IsClear ps → AllClear (join b'/' ps)
join-AllClear [] free clear = unfold join split in (empty-IsClear, tt)
join-AllClear (p ∷ ps) free clear = rw (split-join b'/' p ps free) clear

slash-AllClear : (t : Text) → AllClear t → AllClear (b'/' ∷ t)
slash-AllClear t clear =
    rw (split-append_cons b'/' [] t (unfold has in refl)) (empty-IsClear, clear)

or_root-AllClear : (t : Text) → AllClear t → AllClear (or_root t)
or_root-AllClear [] clear = slash-AllClear [] clear
or_root-AllClear (c ∷ cs) clear = clear

rooted-AllClear :
    (rooted : Bool) (t : Text) → AllClear t → AllClear ((if rooted then b'/' ∷ [] else []) ++ t)
rooted-AllClear true t clear = slash-AllClear t clear
rooted-AllClear false t clear = clear

-- No segment of a scrubbed path has the shape of a UUID, in whatever case, or is a number of five
-- digits or more, whatever the path was.
pub scrub_path-IsClear : (path_query : Text) → All IsClear (split b'/' (scrub_path path_query))
unfolding scrub_path
scrub_path-IsClear path_query =
    let path = before b'?' path_query in
    let segs = split b'/' path in
    let body : AllClear (scrub_segments false segs) = rw (scrub_segments-join segs) (
      join-AllClear (written segs) (Free-written segs (Free-split b'/' path))
        (written-IsClear segs)) in
    or_root-AllClear
      ((if starts_with path (b'/' ∷ []) then b'/' ∷ [] else []) ++ scrub_segments false segs)
      (rooted-AllClear (starts_with path (b'/' ∷ [])) (scrub_segments false segs) body)

before_query : (p q : Text) → has b'?' p ≡ false → before b'?' (p ++ b'?' ∷ q) ≡ before b'?' p
unfolding before
before_query p q free =
    rw (split-append_cons b'?' p q free, before) (rw (split_free b'?' p free, before) refl)

-- The query after a path has no part in what is logged of it.
pub scrub_path-append :
    (path query : Text)
    → has b'?' path ≡ false
    → scrub_path (path ++ b'?' ∷ query) ≡ scrub_path path
unfolding scrub_path
scrub_path-append path query free = rw (before_query path query free) refl
