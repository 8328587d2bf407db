-- ===== src/Base/Lines.antt =====
-- `str::lines`, and the text of a file to which whole lines are appended.
use mathlib.Core.Path.{◌≡◌, refl, ap, sym, ◌∙◌}
use mathlib.Core.Bool.{false}
use mathlib.Core.List.{List, [], ◌∷◌, ◌++◌, map, append_assoc}
use native.Mathlib.Omega.{arith}
use gostly_ai_proxy.Base.Tests.{nat_beq, if◌then◌else◌}
use gostly_ai_proxy.Base.Lists.{All}
use gostly_ai_proxy.Base.Strings.{Text, text_eq, has, split, join}
use gostly_ai_proxy.Base.Split.{split-append_cons}

-- A line's text, without the `\r` of a `\r\n`.
unfoldable pub strip_cr : Text → Text
strip_cr [] = []
strip_cr (c ∷ []) = if nat_beq c 13 then [] else c ∷ []
strip_cr (c ∷ d ∷ s) = c ∷ strip_cr (d ∷ s)

-- What follows the last line feed is a line only if it is not empty.
unfoldable pub drop_last_empty : List Text → List Text
drop_last_empty [] = []
drop_last_empty (p ∷ []) = elim p [ [] ↦ [] | c ∷ s ↦ (c ∷ s) ∷ [] ]
drop_last_empty (p ∷ q ∷ ps) = p ∷ drop_last_empty (q ∷ ps)

unfoldable pub lines : Text → List Text
unfolding split drop_last_empty strip_cr
lines s = map strip_cr (drop_last_empty (split 10 s))

-- The lines, each with its line feed.
unfoldable pub unlines : List Text → Text
unlines [] = []
unlines (l ∷ ls) = l ++ 10 ∷ unlines ls

-- A line as JSON is printed: no line feed and no carriage return.
abbrev pub IsClean : Text → Type 0
IsClean l = (has 10 l ≡ false) × (has 13 l ≡ false)

strip_cr_clean : (l : Text) → has 13 l ≡ false → strip_cr l ≡ l
unfolding strip_cr has
strip_cr_clean [] h = refl
strip_cr_clean (c ∷ []) h = ground arith
strip_cr_clean (c ∷ d ∷ s) h =
    let ih = strip_cr_clean (d ∷ s) (ground arith) in ap (λ (t : Text). c ∷ t) ih

split-unlines : (ls : List Text) → All IsClean ls → split 10 (unlines ls) ≡ ls ++ [] ∷ []
unfolding unlines
split-unlines [] c = unfold split in refl
split-unlines (l ∷ ls) ((c, _), cs) =
    split-append_cons 10 l (unlines ls) c ∙ ap (λ (r : List Text). l ∷ r) (split-unlines ls cs)

drop_last_empty-append : (ls : List Text) → drop_last_empty (ls ++ [] ∷ []) ≡ ls
unfolding drop_last_empty
drop_last_empty-append [] = refl
drop_last_empty-append (l ∷ []) = refl
drop_last_empty-append (l ∷ k ∷ ls) =
    ap (λ (r : List Text). l ∷ r) (drop_last_empty-append (k ∷ ls))

map-strip_cr : (ls : List Text) → All IsClean ls → map strip_cr ls ≡ ls
map-strip_cr [] c = refl
map-strip_cr (l ∷ ls) ((_, c), cs) = cc (strip_cr_clean l c, map-strip_cr ls cs)

-- Reading back what was written line by line gives the lines.
pub lines-unlines : (ls : List Text) → All IsClean ls → lines (unlines ls) ≡ ls
lines-unlines ls c =
    unfold lines in
    ap (λ (ps : List Text). map strip_cr (drop_last_empty ps)) (split-unlines ls c)
    ∙ ap (map strip_cr) (drop_last_empty-append ls)
    ∙ map-strip_cr ls c

pub unlines-append : (ls ks : List Text) → unlines (ls ++ ks) ≡ unlines ls ++ unlines ks
unfolding unlines
unlines-append [] ks = refl
unlines-append (l ∷ ls) ks =
    ap (λ (r : Text). l ++ 10 ∷ r) (unlines-append ls ks)
    ∙ sym (append_assoc l (10 ∷ unlines ls) (unlines ks))

pub unlines-append_one :
    (ls : List Text) (l : Text) → unlines (ls ++ l ∷ []) ≡ unlines ls ++ l ++ 10 ∷ []
unlines-append_one ls l =
    unlines-append ls (l ∷ []) ∙ (unfold unlines in sym (append_assoc (unlines ls) l (10 ∷ [])))

-- Lines joined by line feeds, with one at the end.
pub join-unlines : (l : Text) (ls : List Text) → join 10 (l ∷ ls) ++ 10 ∷ [] ≡ unlines (l ∷ ls)
unfolding join unlines
join-unlines l [] = refl
join-unlines l (k ∷ ls) =
    append_assoc l (10 ∷ join 10 (k ∷ ls)) (10 ∷ [])
    ∙ ap (λ (r : Text). l ++ 10 ∷ r) (join-unlines k ls)
