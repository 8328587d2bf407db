-- ===== src/Examples/JsonCodec.antt =====
-- A codec of JSON values that reads back what it writes: a tag before each value, and the size of the
-- whole before it, which bounds the reading.
use gostly_ai_proxy.Base.{
  ℕ, zero, suc, ◌+◌, ◌≤◌, ◌≡◌, refl, ap, ◌∙◌, Bool, true, false, Option, none, some, [], ◌∷◌, ◌++◌,
  arith, Text,
}
use mathlib.Core.List.{append_assoc}
use gostly_ai_proxy.Json.{
  Json, Items, Fields, null, boolean, number, string, array, object, no_items, item, no_fields,
  field,
}
use gostly_ai_proxy.Examples.Codec.{Codec, chain, text}

abbrev write_bool : Bool → ℕ
write_bool false = 0
write_bool true = 1

abbrev read_bool : ℕ → Bool
read_bool zero = false
read_bool (suc n) = true

read_bool-write_bool : (b : Bool) → read_bool (write_bool b) ≡ b
read_bool-write_bool true = refl
read_bool-write_bool false = refl

abbrev mutual
  size : Json → ℕ
  size (array xs) = suc (size_items xs)
  size (object fs) = suc (size_fields fs)
  size _ = 1

  size_items : Items → ℕ
  size_items no_items = 1
  size_items (item v xs) = suc (size v + size_items xs)

  size_fields : Fields → ℕ
  size_fields no_fields = 1
  size_fields (field k v fs) = suc (size v + size_fields fs)

abbrev mutual
  write : Json → Text
  write null = 0 ∷ []
  write (boolean b) = 1 ∷ write_bool b ∷ []
  write (number t) = 2 ∷ text.write t
  write (string t) = 3 ∷ text.write t
  write (array xs) = 4 ∷ write_items xs
  write (object fs) = 5 ∷ write_fields fs

  write_items : Items → Text
  write_items no_items = 0 ∷ []
  write_items (item v xs) = 1 ∷ (write v ++ write_items xs)

  write_fields : Fields → Text
  write_fields no_fields = 0 ∷ []
  write_fields (field k v fs) = 1 ∷ (text.write k ++ (write v ++ write_fields fs))

abbrev mutual
  read : ℕ → Text → Option (Json × Text)
  read zero t = none
  read (suc n) [] = none
  read (suc n) (zero ∷ r) = some (null, r)
  read (suc n) (suc zero ∷ []) = none
  read (suc n) (suc zero ∷ b ∷ r) = some (boolean (read_bool b), r)
  read (suc n) (suc (suc zero) ∷ r) = chain (text.read r) (λ t r'. some (number t, r'))
  read (suc n) (suc (suc (suc zero)) ∷ r) = chain (text.read r) (λ t r'. some (string t, r'))
  read (suc n) (suc (suc (suc (suc zero))) ∷ r) =
      chain (read_items n r) (λ xs r'. some (array xs, r'))
  read (suc n) (suc (suc (suc (suc (suc zero)))) ∷ r) =
      chain (read_fields n r) (λ fs r'. some (object fs, r'))
  read (suc n) (_ ∷ r) = none

  read_items : ℕ → Text → Option (Items × Text)
  read_items zero t = none
  read_items (suc n) [] = none
  read_items (suc n) (zero ∷ r) = some (no_items, r)
  read_items (suc n) (suc _ ∷ r) =
      chain (read n r) (λ v r'. chain (read_items n r') (λ xs r''. some (item v xs, r'')))

  read_fields : ℕ → Text → Option (Fields × Text)
  read_fields zero t = none
  read_fields (suc n) [] = none
  read_fields (suc n) (zero ∷ r) = some (no_fields, r)
  read_fields (suc n) (suc _ ∷ r) = chain (text.read r) (λ k r'.
      chain (read n r') (λ v r''. chain (read_fields n r'') (λ fs r3. some (field k v fs, r3))))

too_small : (v : Json) → size v ≤ 0 → 1 ≤ 0
too_small null h = h
too_small (boolean b) h = h
too_small (number t) h = h
too_small (string t) h = h
too_small (array xs) h = omega (arith, h)
too_small (object fs) h = omega (arith, h)

too_small_items : (xs : Items) → size_items xs ≤ 0 → 1 ≤ 0
too_small_items no_items h = h
too_small_items (item v xs) h = omega (arith, h)

too_small_fields : (fs : Fields) → size_fields fs ≤ 0 → 1 ≤ 0
too_small_fields no_fields h = h
too_small_fields (field k v fs) h = omega (arith, h)

mutual
  pub read-write :
      (n : ℕ) (v : Json) (rest : Text) → size v ≤ n → read n (write v ++ rest) ≡ some (v, rest)
  read-write zero v rest h = let no = too_small v h in absurd (omega (arith, no))
  read-write (suc n) null rest h = refl
  read-write (suc n) (boolean b) rest h =
      ap (λ (c : Bool). some (boolean c, rest)) (read_bool-write_bool b)
  read-write (suc n) (number t) rest h =
      ap (λ (o : Option (Text × Text)). chain o (λ x r. some (number x, r)))
        (text.read-write t rest)
  read-write (suc n) (string t) rest h =
      ap (λ (o : Option (Text × Text)). chain o (λ x r. some (string x, r)))
        (text.read-write t rest)
  read-write (suc n) (array xs) rest h =
      ap (λ (o : Option (Items × Text)). chain o (λ x r. some (array x, r)))
        (read_items-write_items n xs rest (omega (arith, h)))
  read-write (suc n) (object fs) rest h =
      ap (λ (o : Option (Fields × Text)). chain o (λ x r. some (object x, r)))
        (read_fields-write_fields n fs rest (omega (arith, h)))

  read_items-write_items :
      (n : ℕ) (xs : Items) (rest : Text)
      → size_items xs ≤ n
      → read_items n (write_items xs ++ rest) ≡ some (xs, rest)
  read_items-write_items zero xs rest h =
      let no = too_small_items xs h in absurd (omega (arith, no))
  read_items-write_items (suc n) no_items rest h = refl
  read_items-write_items (suc n) (item v xs) rest h =
      let next : Option (Json × Text) → Option (Items × Text) =
        λ o. chain o (λ x r. chain (read_items n r) (λ ys r'. some (item x ys, r'))) in
      ap (λ (t : Text). next (read n t)) (append_assoc (write v) (write_items xs) rest)
      ∙ ap next (read-write n v (write_items xs ++ rest) (omega (arith, h)))
      ∙ ap (λ (o : Option (Items × Text)). chain o (λ ys r'. some (item v ys, r')))
          (read_items-write_items n xs rest (omega (arith, h)))

  read_fields-write_fields :
      (n : ℕ) (fs : Fields) (rest : Text)
      → size_fields fs ≤ n
      → read_fields n (write_fields fs ++ rest) ≡ some (fs, rest)
  read_fields-write_fields zero fs rest h =
      let no = too_small_fields fs h in absurd (omega (arith, no))
  read_fields-write_fields (suc n) no_fields rest h = refl
  read_fields-write_fields (suc n) (field k v fs) rest h =
      let inner : Text → Json → Text → Option (Fields × Text) =
        λ x y r. chain (read_fields n r) (λ ys r'. some (field x y ys, r')) in
      let next : Option (Text × Text) → Option (Fields × Text) =
        λ o. chain o (λ x r. chain (read n r) (inner x)) in
      ap (λ (t : Text). next (text.read t))
        (append_assoc (text.write k) (write v ++ write_fields fs) rest)
      ∙ ap next (text.read-write k ((write v ++ write_fields fs) ++ rest))
      ∙ ap (λ (t : Text). chain (read n t) (inner k))
          (append_assoc (write v) (write_fields fs) rest)
      ∙ ap (λ (o : Option (Json × Text)). chain o (inner k))
          (read-write n v (write_fields fs ++ rest) (omega (arith, h)))
      ∙ ap (λ (o : Option (Fields × Text)). chain o (λ ys r'. some (field k v ys, r')))
          (read_fields-write_fields n fs rest (omega (arith, h)))

abbrev read_sized : Text → Option (Json × Text)
read_sized [] = none
read_sized (n ∷ r) = read n r

abbrev pub json : Codec Json
json = record {
  write = λ v. size v ∷ write v;
  read = read_sized;
  read-write = λ v rest. read-write (size v) v rest (omega arith);
}
