-- ===== src/Tenant/Clamp.antt =====
-- The bound on a tenant's name, and when the cut panics.
use mathlib.Core.Bool.{false≢true}
use native.Mathlib.Decide.{dec_lt}
use gostly_ai_proxy.Base.{
  ℕ, zero, suc, ◌+◌, ◌-◌, ◌≤◌, ◌<◌, ◌≡◌, ◌≢◌, refl, ap, ◌↔◌, some, [], ◌∷◌, ◌++◌, arith, Text,
  text_eq, ◌==◌, eq_iff, lt→ltb, sym, ◌∙◌, Bool-cases, inl, inr, ◌⊎◌, length, length-append,
  utf8_char, utf8, trim, byte_len, take_bytes,
}
use gostly_ai_proxy.Types.{global_tenant}
use gostly_ai_proxy.Tenant.{clamp_tenant, max_tenant_len}

utf8_char_bounds : (c : ℕ) → (1 ≤ length (utf8_char c)) × (length (utf8_char c) ≤ 4)
unfolding utf8_char
utf8_char_bounds c = ground arith

byte_len_cons : (c : ℕ) (s : Text) → byte_len (c ∷ s) ≡ length (utf8_char c) + byte_len s
unfolding byte_len utf8
byte_len_cons c s = length-append (utf8_char c) (utf8 s)

-- A cut that succeeds is a prefix of exactly that many bytes.
take_bytes_sound :
    (n : ℕ) (s a : Text) → take_bytes n s ≡ some a → (b : Text) × (s ≡ a ++ b) × (byte_len a ≡ n)
unfolding take_bytes
take_bytes_sound zero s a h =
    unfold byte_len utf8 in let e : a ≡ [] = ground arith in rw e (s, refl, refl)
take_bytes_sound (suc n) [] a h = cc
take_bytes_sound (suc n) (c ∷ s) [] h = absurd (ground arith)
take_bytes_sound (suc n) (c ∷ s) (x ∷ a) h =
    let w = length (utf8_char c) in
    let rest : take_bytes (suc n - w) s ≡ some a = ground arith in
    let fits : w ≤ suc n = ground arith in
    let same : x ≡ c = ground arith in
    let (b, e, l) = take_bytes_sound (suc n - w) s a rest in
    (b, cc, rw same (omega (arith, byte_len_cons c a)))

take_bytes_cons :
    (n c : ℕ) (s a : Text)
    → length (utf8_char c) ≤ n
    → take_bytes (n - length (utf8_char c)) s ≡ some a
    → take_bytes n (c ∷ s) ≡ some (c ∷ a)
unfolding take_bytes
take_bytes_cons zero c s a l h = absurd (omega (arith, utf8_char_bounds c))
take_bytes_cons (suc n) c s a l h = ground arith

add-sub_left : (m n : ℕ) → m + n - m ≡ n
add-sub_left m n = omega arith

-- Wherever a prefix has that many bytes, the cut succeeds and is that prefix.
take_bytes_complete : (a b : Text) → take_bytes (byte_len a) (a ++ b) ≡ some a
take_bytes_complete [] b = unfold byte_len utf8 take_bytes in refl
take_bytes_complete (c ∷ a) b = rw (byte_len_cons c a) (
    take_bytes_cons (length (utf8_char c) + byte_len a) c (a ++ b) a (omega arith)
      (rw (add-sub_left (length (utf8_char c)) (byte_len a)) (take_bytes_complete a b)))

byte_len_nil : byte_len [] ≡ 0
unfolding byte_len utf8
byte_len_nil = refl

clamp_tenant_long :
    (raw : Text)
    → max_tenant_len < byte_len (trim raw)
    → clamp_tenant raw ≡ take_bytes max_tenant_len (trim raw)
unfolding clamp_tenant
clamp_tenant_long raw h = elim (Bool-cases (trim raw == [])) [
  | inl blank ↦
      let none_left : trim raw ≡ [] = (eq_iff (trim raw) []).0 blank in
      absurd (omega (arith, ap byte_len none_left, byte_len_nil))
  | inr more ↦ rw (more, clamp_tenant) (rw (lt→ltb _ _ h))
]

clamp_tenant_short :
    (raw t : Text)
    → byte_len (trim raw) ≤ max_tenant_len
    → clamp_tenant raw ≡ some t
    → (t ≡ global_tenant) ⊎ ((t ≡ trim raw) × (t ≢ []))
unfolding clamp_tenant
clamp_tenant_short raw t l h = elim (Bool-cases (trim raw == [])) [
  | inl blank ↦ inl (ground arith)
  | inr more ↦
      let same : t ≡ trim raw = ground arith in
      inr (same, λ e. false≢true (sym more ∙ (eq_iff (trim raw) []).1 (sym same ∙ e)))
]

-- A tenant's name is never empty and has at most 128 bytes.
pub clamp_tenant_bounds :
    (raw t : Text) → clamp_tenant raw ≡ some t → (t ≢ []) × (byte_len t ≤ max_tenant_len)
clamp_tenant_bounds raw t h = elim (dec_lt max_tenant_len (byte_len (trim raw))) [
  | yes long ↦
      let (b, _, l) =
        take_bytes_sound max_tenant_len (trim raw) t (sym (clamp_tenant_long raw long) ∙ h) in
      (λ e. absurd (omega (arith, ap byte_len e, byte_len_nil)), omega arith)
  | no short ↦ elim (clamp_tenant_short raw t (omega arith) h) [
    | inl e ↦ rw e (λ n. cc n, unfold byte_len utf8 utf8_char in omega arith)
    | inr (e, n) ↦ (n, rw e (omega arith))
  ]
]

-- A name of more than 128 bytes is cut to the prefix of exactly 128, where a character ends there;
-- where none does, there is no name: the cut panics.
pub clamp_tenant_cut_iff :
    (raw t : Text)
    → max_tenant_len < byte_len (trim raw)
    → (clamp_tenant raw ≡ some t)
      ↔ ((b : Text) × (trim raw ≡ t ++ b) × (byte_len t ≡ max_tenant_len))
clamp_tenant_cut_iff raw t h = (
  λ e. take_bytes_sound max_tenant_len (trim raw) t (sym (clamp_tenant_long raw h) ∙ e),
  λ (b, parts, l).
      clamp_tenant_long raw h
      ∙ ap (take_bytes max_tenant_len) parts
      ∙ ap (λ n. take_bytes n (t ++ b)) (sym l)
      ∙ take_bytes_complete t b,
)
