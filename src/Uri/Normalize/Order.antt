-- ===== src/Uri/Normalize/Order.antt =====
-- The order of `str` by which the parameters are sorted.
use gostly_ai_proxy.Base.{◌≡◌, refl, ◌≢◌, true, false, List, [], ◌∷◌, arith, Text}
use gostly_ai_proxy.Uri.{text_leb, insert_param}

pub text_leb_total : (s t : Text) → text_leb s t ≡ false → text_leb t s ≡ true
unfolding text_leb
text_leb_total [] t h = cc
text_leb_total (x ∷ s) [] h = refl
text_leb_total (x ∷ s) (y ∷ t) h = ground (arith, text_leb_total s t)

text_leb_antisym : (s t : Text) → text_leb s t ≡ true → text_leb t s ≡ true → s ≡ t
unfolding text_leb
text_leb_antisym [] [] h k = refl
text_leb_antisym [] (y ∷ t) h k = cc
text_leb_antisym (x ∷ s) [] h k = cc
text_leb_antisym (x ∷ s) (y ∷ t) h k = ground (arith, text_leb_antisym s t)

text_leb_trans : (s t u : Text) → text_leb s t ≡ true → text_leb t u ≡ true → text_leb s u ≡ true
unfolding text_leb
text_leb_trans [] t u h k = refl
text_leb_trans (x ∷ s) [] u h k = cc
text_leb_trans (x ∷ s) (y ∷ t) [] h k = cc
text_leb_trans (x ∷ s) (y ∷ t) (z ∷ u) h k = ground (arith, text_leb_trans s t u)

-- Two parameters with different keys are inserted in either order.
pub insert_swap :
    (p q : Text × Text) (l : List (Text × Text))
    → p.0 ≢ q.0
    → insert_param p (insert_param q l) ≡ insert_param q (insert_param p l)
unfolding insert_param
insert_swap p q [] ne = ground (arith, text_leb_total p.0 q.0, text_leb_antisym p.0 q.0)
insert_swap p q (r ∷ l) ne = ground (
  arith,
  insert_swap p q l ne,
  text_leb_total p.0 q.0,
  text_leb_antisym p.0 q.0,
  text_leb_trans p.0 q.0 r.0,
  text_leb_trans q.0 p.0 r.0,
)
