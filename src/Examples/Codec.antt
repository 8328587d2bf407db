-- ===== src/Examples/Codec.antt =====
-- A codec that reads back what it writes, by lengths before contents.
use gostly_ai_proxy.Base.{
  ℕ, zero, suc, ◌≡◌, refl, ap, ◌∙◌, Option, none, some, List, [], ◌∷◌, ◌++◌, length, Text,
}
use mathlib.Core.List.{append_assoc}

pub record Codec (A : Type 0) : Type 0 where
  pub write : A → Text
  pub read : Text → Option (A × Text)
  pub read-write : (a : A) (rest : Text) → read (write a ++ rest) ≡ some (a, rest)

abbrev pub chain :
    {A B : Type 0} → Option (A × Text) → (A → Text → Option (B × Text)) → Option (B × Text)
chain none f = none
chain (some (a, rest)) f = f a rest

abbrev pub number : Codec ℕ
number = record { write = λ n. n ∷ []; read = read_number; read-write = λ n rest. refl }
  where
    read_number : Text → Option (ℕ × Text)
    read_number [] = none
    read_number (n ∷ rest) = some (n, rest)

module _ {A B : Type 0} (a : Codec A) (b : Codec B) where
  abbrev pub pair : Codec (A × B)
  pair = record {
    write = λ p. a.write p.0 ++ b.write p.1;
    read = λ t. chain (a.read t) (λ x rest. chain (b.read rest) (λ y rest'. some ((x, y), rest')));
    read-write = λ p rest.
        ap
          (λ (s : Text).
            chain (a.read s) (λ x rest'. chain (b.read rest') (λ y rest''. some ((x, y), rest''))))
          (append_assoc (a.write p.0) (b.write p.1) rest)
        ∙ ap
            (λ (o : Option (A × Text)).
              chain o (λ x rest'. chain (b.read rest') (λ y rest''. some ((x, y), rest''))))
            (a.read-write p.0 (b.write p.1 ++ rest))
        ∙ ap (λ (o : Option (B × Text)). chain o (λ y rest''. some ((p.0, y), rest'')))
            (b.read-write p.1 rest);
  }

module _ {A : Type 0} (a : Codec A) where
  abbrev write_all : List A → Text
  write_all [] = []
  write_all (x ∷ xs) = a.write x ++ write_all xs

  abbrev read_all : ℕ → Text → Option (List A × Text)
  read_all zero t = some ([], t)
  read_all (suc n) t =
      chain (a.read t) (λ x rest. chain (read_all n rest) (λ xs rest'. some (x ∷ xs, rest')))

  pub read_all-write_all :
      (xs : List A) (rest : Text) → read_all (length xs) (write_all xs ++ rest) ≡ some (xs, rest)
  read_all-write_all [] rest = refl
  read_all-write_all (x ∷ xs) rest =
      ap
        (λ (s : Text).
          chain (a.read s) (λ y r. chain (read_all (length xs) r) (λ ys r'. some (y ∷ ys, r'))))
        (append_assoc (a.write x) (write_all xs) rest)
      ∙ ap
          (λ (o : Option (A × Text)).
            chain o (λ y r. chain (read_all (length xs) r) (λ ys r'. some (y ∷ ys, r'))))
          (a.read-write x (write_all xs ++ rest))
      ∙ ap (λ (o : Option (List A × Text)). chain o (λ ys r'. some (x ∷ ys, r')))
          (read_all-write_all xs rest)

  abbrev read_counted : Text → Option (List A × Text)
  read_counted [] = none
  read_counted (n ∷ rest) = read_all n rest

  abbrev pub list : Codec (List A)
  list = record {
    write = λ xs. length xs ∷ write_all xs;
    read = read_counted;
    read-write = read_all-write_all;
  }

  abbrev write_option : Option A → Text
  write_option none = 0 ∷ []
  write_option (some x) = 1 ∷ a.write x

  abbrev read_option : Text → Option (Option A × Text)
  read_option [] = none
  read_option (zero ∷ rest) = some (none, rest)
  read_option (suc n ∷ rest) = chain (a.read rest) (λ x rest'. some (some x, rest'))

  pub read_option-write_option :
      (o : Option A) (rest : Text) → read_option (write_option o ++ rest) ≡ some (o, rest)
  read_option-write_option none rest = refl
  read_option-write_option (some x) rest =
      ap (λ (o : Option (A × Text)). chain o (λ y r. some (some y, r))) (a.read-write x rest)

  abbrev pub option : Codec (Option A)
  option = record {
    write = write_option;
    read = read_option;
    read-write = read_option-write_option;
  }

abbrev pub text : Codec Text
text = list number
