-- ===== src/Prelude/Sort.antt =====
-- A stable sort, as list.sort() with a key is: an entry stays in front of the later ones that are not
-- less.
use mathlib.Core.Path.{◌≡◌, refl, ap, ◌∙◌}
use mathlib.Core.Logic.{inl, inr}
use mathlib.Core.Bool.{Bool, true, false, ◌&&◌, ◌||◌}
use mathlib.Core.List.{List, [], ◌∷◌, map}
use native.Mathlib.Omega.{arith}
use repo_agent.Prelude.Tests.{Bool-cases, if◌then◌else◌}
use repo_agent.Prelude.Words.{Text, mem_text, same_text, same_text_sym, IsDistinct}

module _ {ℓ} {A : Type ℓ} (le : A → A → Bool) where
  unfoldable pub insert_sorted : A → List A → List A
  insert_sorted x [] = x ∷ []
  insert_sorted x (y ∷ ys) =
      let rest = insert_sorted x ys in if le x y then x ∷ y ∷ ys else y ∷ rest

  unfoldable pub sort : List A → List A
  unfolding insert_sorted
  sort [] = []
  sort (x ∷ xs) = insert_sorted x (sort xs)

  -- The test of an entry against the head behind it.
  unfoldable pub le_head : A → List A → Bool
  le_head x [] = true
  le_head x (y ∷ ys) = le x y

  unfoldable pub is_sorted : List A → Bool
  unfolding le_head
  is_sorted [] = true
  is_sorted (x ∷ xs) = le_head x xs && is_sorted xs

  le_head-insert_sorted :
      (z x : A) (ys : List A)
      → le z x ≡ true
      → le_head z ys ≡ true
      → le_head z (insert_sorted x ys) ≡ true
  unfolding le_head insert_sorted
  le_head-insert_sorted z x [] h k = h
  le_head-insert_sorted z x (y ∷ ys) h k = elim (Bool-cases (le x y)) [
    | inl e ↦ rw (e) h
    | inr e ↦ rw (e) k
  ]

  module _ (total : (x y : A) → (le x y || le y x) ≡ true) where
    insert_sorted-is_sorted :
        (x : A) (ys : List A) → is_sorted ys ≡ true → is_sorted (insert_sorted x ys) ≡ true
    unfolding is_sorted insert_sorted le_head
    insert_sorted-is_sorted x [] h = refl
    insert_sorted-is_sorted x (y ∷ ys) h = elim (Bool-cases (le x y)) [
      | inl e ↦ rw (e) (ground (arith, h, e))
      | inr e ↦ rw (e) (
          ground (
            arith,
            h,
            insert_sorted-is_sorted x ys,
            le_head-insert_sorted y x ys (ground (arith, e, total x y)),
          ))
    ]

    pub sort-is_sorted : (xs : List A) → is_sorted (sort xs) ≡ true
    unfolding sort is_sorted
    sort-is_sorted [] = refl
    sort-is_sorted (x ∷ xs) = insert_sorted-is_sorted x (sort xs) (sort-is_sorted xs)

  module _ (key : A → Text) where
    mem_text-insert_sorted :
        (t : Text) (x : A) (ys : List A)
        → mem_text t (map key (insert_sorted x ys))
          ≡ (same_text t (key x) || mem_text t (map key ys))
    unfolding insert_sorted mem_text
    mem_text-insert_sorted t x [] = refl
    mem_text-insert_sorted t x (y ∷ ys) = elim (Bool-cases (le x y)) [
      | inl e ↦ rw (e) refl
      | inr e ↦ rw (e) (ground (arith, mem_text-insert_sorted t x ys))
    ]

    pub mem_text-sort :
        (t : Text) (xs : List A) → mem_text t (map key (sort xs)) ≡ mem_text t (map key xs)
    unfolding sort mem_text
    mem_text-sort t [] = refl
    mem_text-sort t (x ∷ xs) =
        mem_text-insert_sorted t x (sort xs) ∙ ap (◌||◌ (same_text t (key x))) (mem_text-sort t xs)

    IsDistinct-insert_sorted :
        (x : A) (ys : List A)
        → mem_text (key x) (map key ys) ≡ false
        → IsDistinct (map key ys)
        → IsDistinct (map key (insert_sorted x ys))
    unfolding insert_sorted IsDistinct mem_text
    IsDistinct-insert_sorted x [] h d = (h, tt)
    IsDistinct-insert_sorted x (y ∷ ys) h (n, d) = elim (Bool-cases (le x y)) [
      | inl e ↦ rw (e) ((h, (n, d)))
      | inr e ↦ rw (e) (
          (
            ground
                (arith, h, n, mem_text-insert_sorted (key y) x ys, same_text_sym (key y) (key x)),
            IsDistinct-insert_sorted x ys (ground (arith, h)) d,
          ))
    ]

    pub IsDistinct-sort : (xs : List A) → IsDistinct (map key xs) → IsDistinct (map key (sort xs))
    unfolding sort IsDistinct
    IsDistinct-sort [] d = d
    IsDistinct-sort (x ∷ xs) (n, d) =
        IsDistinct-insert_sorted x (sort xs) (mem_text-sort (key x) xs ∙ n) (IsDistinct-sort xs d)
