-- ===== src/Prelude/Reverse.antt =====
-- The reverse of a list.
use mathlib.Core.Path.{◌≡◌, refl, sym, ◌∙◌}
use mathlib.Core.List.{List, [], ◌∷◌, ◌++◌, append-nil}

module _ {ℓ} {A : Type ℓ} where
  unfoldable pub reverse_onto : List A → List A → List A
  reverse_onto [] ys = ys
  reverse_onto (x ∷ xs) ys = reverse_onto xs (x ∷ ys)

  abbrev pub reverse : List A → List A
  reverse xs = reverse_onto xs []

  reverse_onto-append :
      (xs ys zs : List A) → reverse_onto (xs ++ ys) zs ≡ reverse_onto ys (reverse_onto xs zs)
  unfolding reverse_onto
  reverse_onto-append [] ys zs = refl
  reverse_onto-append (x ∷ xs) ys zs = reverse_onto-append xs ys (x ∷ zs)

  append-reverse_onto : (xs ys zs : List A) → reverse_onto xs ys ++ zs ≡ reverse_onto xs (ys ++ zs)
  unfolding reverse_onto
  append-reverse_onto [] ys zs = refl
  append-reverse_onto (x ∷ xs) ys zs = append-reverse_onto xs (x ∷ ys) zs

  reverse_onto_twice :
      (xs ys zs : List A) → reverse_onto (reverse_onto xs ys) zs ≡ reverse_onto ys (xs ++ zs)
  unfolding reverse_onto
  reverse_onto_twice [] ys zs = refl
  reverse_onto_twice (x ∷ xs) ys zs = reverse_onto_twice xs (x ∷ ys) zs

  pub reverse-append : (xs ys : List A) → reverse (xs ++ ys) ≡ reverse ys ++ reverse xs
  reverse-append xs ys = reverse_onto-append xs ys [] ∙ sym (append-reverse_onto ys [] (reverse xs))

  pub reverse-reverse : (xs : List A) → reverse (reverse xs) ≡ xs
  unfolding reverse_onto
  reverse-reverse xs = reverse_onto_twice xs [] [] ∙ append-nil xs
