-- ===== src/Resilience/Bucket/Counts.antt =====
-- How often a session occurs in the lists of a bucket, and how the list operations change that.
use repo_agent.Prelude.{
  ℕ, ◌+◌, ◌-◌, ◌≤◌, ◌<◌, ◌≡◌, refl, ◌≢◌, inl, inr, Bool, none, some, List, [], ◌∷◌, ◌++◌, arith,
  ltb, ◌==◌, if◌then◌else◌, Option-cases, length,
}
use repo_agent.Resilience.Bucket.{contains, remove, remove_if_in, pop, remove_all}

abbrev pub one_if : Bool → ℕ
one_if b = if b then 1 else 0

unfoldable pub count : ℕ → List ℕ → ℕ
count s [] = 0
count s (x ∷ xs) = one_if (x == s) + count s xs

pub count-append : (s : ℕ) (xs ys : List ℕ) → count s (xs ++ ys) ≡ count s xs + count s ys
unfolding count
count-append s [] ys = omega arith
count-append s (x ∷ xs) ys = omega (arith, count-append s xs ys)

pub count-snoc : (s x : ℕ) (xs : List ℕ) → count s (xs ++ x ∷ []) ≡ count s xs + one_if (x == s)
unfolding count
count-snoc s x xs = omega (arith, count-append s xs (x ∷ []))

pub contains-count : (s : ℕ) (xs : List ℕ) → contains s xs ≡ ltb 0 (count s xs)
unfolding contains count
contains-count s [] = refl
contains-count s (x ∷ xs) = ground (arith, contains-count s xs)

pub count-remove : (s x : ℕ) (xs : List ℕ) → count s (remove x xs) ≡ count s xs - one_if (x == s)
unfolding remove count
count-remove s x [] = omega arith
count-remove s x (y ∷ ys) = ground (arith, count-remove s x ys)

pub length-remove : (x : ℕ) (xs : List ℕ) → 0 < count x xs → length (remove x xs) + 1 ≡ length xs
unfolding remove count
length-remove x [] h = absurd (omega arith)
length-remove x (y ∷ ys) h = ground (arith, length-remove x ys)

pub count-remove_if_in :
    (s x : ℕ) (xs : List ℕ) → count s (remove_if_in x xs) ≡ count s xs - one_if (x == s)
count-remove_if_in s x xs = ground (arith, contains-count x xs, count-remove s x xs)

pub length-remove_if_in :
    (x : ℕ) (xs : List ℕ) → 0 < count x xs → length (remove_if_in x xs) + 1 ≡ length xs
length-remove_if_in x xs h = ground (arith, contains-count x xs, length-remove x xs h)

pop-ne-none : (x : ℕ) (xs : List ℕ) → pop (x ∷ xs) ≢ none
unfolding pop
pop-ne-none x xs = ground arith

pub pop-snoc : (xs rest : List ℕ) (s : ℕ) → pop xs ≡ some (s, rest) → xs ≡ rest ++ s ∷ []
unfolding pop
pop-snoc [] rest s h = cc
pop-snoc (x ∷ []) rest s h = ground arith
pop-snoc (x ∷ y ∷ ys) rest s h = elim (Option-cases (pop (y ∷ ys))) [
  | inl e ↦ absurd (pop-ne-none y ys e)
  | inr ((l, b), e) ↦ ground (arith, pop-snoc (y ∷ ys) b l e)
]

pub count-remove_all :
    (s : ℕ) (ss xs : List ℕ) → count s (remove_all ss xs) ≡ count s xs - count s ss
unfolding remove_all count
count-remove_all s [] xs = omega arith
count-remove_all s (x ∷ ss) xs =
    omega (arith, count-remove_all s ss (remove_if_in x xs), count-remove_if_in s x xs)

pub length-remove_all :
    (ss xs : List ℕ)
    → ((s : ℕ) → count s ss ≤ count s xs)
    → length (remove_all ss xs) + length ss ≡ length xs
unfolding remove_all count
length-remove_all [] xs h = omega arith
length-remove_all (x ∷ ss) xs h = omega (
  arith,
  length-remove_all ss (remove_if_in x xs) (λ s. omega (arith, h s, count-remove_if_in s x xs)),
  length-remove_if_in x xs (ground (arith, h x)),
)

pub pop-append-ne-none : (xs : List ℕ) (s : ℕ) → pop (xs ++ s ∷ []) ≢ none
pop-append-ne-none [] s = pop-ne-none s []
pop-append-ne-none (x ∷ xs) s = pop-ne-none x (xs ++ s ∷ [])

pub count-le-length : (s : ℕ) (xs : List ℕ) → count s xs ≤ length xs
unfolding count
count-le-length s [] = omega arith
count-le-length s (x ∷ xs) = ground (arith, count-le-length s xs)
