-- ===== src/Base/Decimal.antt =====
-- The text that `to_string` and `format!` give of an unsigned number.
use Prim.Native.Nat.{ℕ, zero, suc, ◌+◌, ◌-◌, ◌*◌, ◌/◌, ◌%◌, ◌<◌}
use mathlib.Core.Path.{◌≡◌, sym, ap, ◌∙◌}
use mathlib.Core.Logic.{inl, inr}
use mathlib.Core.Bool.{true, false}
use mathlib.Core.List.{[], ◌∷◌}
use native.Mathlib.Omega.{arith}
use gostly_ai_proxy.Base.Tests.{ltb, Bool-cases}
use gostly_ai_proxy.Base.Strings.{Text, is_ascii_digit}
use gostly_ai_proxy.Base.Lists.{All}

-- One digit a round, the last one first; a number has fewer digits than its successor is.
unfoldable pub emit : ℕ → ℕ → Text → Text
emit zero n out = out
emit (suc fuel) n out =
    let longer : Text = (b'0' + n % 10) ∷ out in
    elim (ltb n 10) [ true ↦ longer | false ↦ emit fuel (n / 10) longer ]

unfoldable pub to_string : ℕ → Text
unfolding emit
to_string n = emit (suc n) n []

value_from : ℕ → Text → ℕ
value_from n [] = n
value_from n (c ∷ s) = value_from (n * 10 + (c - b'0')) s

value_from-emit :
    (fuel n : ℕ) (out : Text) → n < fuel → value_from 0 (emit fuel n out) ≡ value_from n out
unfolding value_from emit
value_from-emit zero n out h = absurd (omega arith)
value_from-emit (suc fuel) n out h = elim (Bool-cases (ltb n 10)) [
  | inl small ↦ rw (small, emit) (ap (λ (k : ℕ). value_from k out) (ground arith))
  | inr large ↦
      rw (large, emit)
        (value_from-emit fuel (n / 10) ((b'0' + n % 10) ∷ out) (ground arith)
          ∙ ap (λ (k : ℕ). value_from k out) (ground arith))
]

pub to_string_injective : (m n : ℕ) → to_string m ≡ to_string n → m ≡ n
unfolding to_string value_from
to_string_injective m n h =
    sym (value_from-emit (suc m) m [] (omega arith))
    ∙ ap (value_from 0) h
    ∙ value_from-emit (suc n) n [] (omega arith)

emit-digits :
    (fuel n : ℕ) (out : Text)
    → All (λ c. is_ascii_digit c ≡ true) out
    → All (λ c. is_ascii_digit c ≡ true) (emit fuel n out)
unfolding emit
emit-digits zero n out h = h
emit-digits (suc fuel) n out h = elim (Bool-cases (ltb n 10)) [
  | inl small ↦ rw (small, emit) (ground arith, h)
  | inr large ↦
      rw (large, emit) (emit-digits fuel (n / 10) ((b'0' + n % 10) ∷ out) (ground arith, h))
]

pub to_string-digits : (n : ℕ) → All (λ c. is_ascii_digit c ≡ true) (to_string n)
unfolding to_string
to_string-digits n = emit-digits (suc n) n [] tt
