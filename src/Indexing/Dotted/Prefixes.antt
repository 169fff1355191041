-- ===== src/Indexing/Dotted/Prefixes.antt =====
-- The nearest name on the way up from a dotted name.
use repo_agent.Prelude.{
  ℕ, zero, suc, ◌≤◌, ◌≡◌, refl, sym, ap, ◌∙◌, subst, ◌≢◌, ◌⊎◌, inl, inr, Bool, true, false, Option,
  none, some, List, [], ◌∷◌, ◌++◌, append_assoc, arith, if◌then◌else◌, length, length-append,
}
use repo_agent.Prelude.Words.{Text, mem_text}
use repo_agent.Indexing.Dotted.{dot, last_dot, parent, before_last, or_empty, nearest_from, nearest}

-- The name itself, or a part of it that ends in front of a dot.
unfoldable pub IsDottedPrefix : Text → Text → Type 0
IsDottedPrefix q p = (q ≡ p) ⊎ ((rest : Text) × (p ≡ q ++ dot ∷ rest))

value_or : Text → Option Text → Text
value_or d none = d
value_or d (some x) = x

pub some_injective : (x y : Text) → some x ≡ some y → x ≡ y
unfolding value_or
some_injective x y e = ap (value_or x) e

before_last_lem :
    (c : ℕ) (o : Option Text) (s : Text)
    → ((t : Text) → o ≡ some t → (rest : Text) × (s ≡ t ++ dot ∷ rest))
    → (t : Text) → before_last c o ≡ some t
    → (rest : Text) × (c ∷ s ≡ t ++ dot ∷ rest)
unfolding before_last
before_last_lem c none s h t e = (s, ground arith)
before_last_lem c (some u) s h t e =
    let (rest, p) = h u refl in
    (rest, subst (λ x. c ∷ s ≡ x ++ dot ∷ rest) (some_injective (c ∷ u) t e) (ap (λ x. c ∷ x) p))

last_dot_lem : (s t : Text) → last_dot s ≡ some t → (rest : Text) × (s ≡ t ++ dot ∷ rest)
unfolding last_dot
last_dot_lem [] t e = ground arith
last_dot_lem (c ∷ s) t e = before_last_lem c (last_dot s) s (last_dot_lem s) t e

length-or_empty :
    (n : ℕ) (o : Option Text) → ((t : Text) → o ≡ some t → length t ≤ n) → length (or_empty o) ≤ n
unfolding or_empty
length-or_empty n none h = omega arith
length-or_empty n (some t) h = h t refl

length-parent : (c : ℕ) (s : Text) → length (parent (c ∷ s)) ≤ length s
unfolding parent
length-parent c s = length-or_empty (length s) (last_dot (c ∷ s)) (λ t e.
    let (rest, p) = last_dot_lem (c ∷ s) t e in
    let l = ap length p ∙ length-append t (dot ∷ rest) in omega arith)

-- No text that is not empty is a prefix of the empty one.
not_below_empty : (q : Text) → q ≢ [] → IsDottedPrefix q [] → ⊥
unfolding IsDottedPrefix
not_below_empty q some_text (inl e) = some_text e
not_below_empty [] some_text (inr (rest, e)) = some_text refl
not_below_empty (c ∷ q) some_text (inr (rest, e)) = ground arith

below_parent : (q p t r : Text) → p ≡ t ++ dot ∷ r → IsDottedPrefix q t → IsDottedPrefix q p
unfolding IsDottedPrefix
below_parent q p t r e (inl h) = inr (r, subst (λ x. p ≡ x ++ dot ∷ r) (sym h) e)
below_parent q p t r e (inr (rest, h)) =
    inr (rest ++ dot ∷ r, subst (λ x. p ≡ x ++ dot ∷ r) h e ∙ append_assoc q (dot ∷ rest) (dot ∷ r))

below_or_empty :
    (q p : Text) (o : Option Text)
    → ((t : Text) → o ≡ some t → (rest : Text) × (p ≡ t ++ dot ∷ rest))
    → q ≢ []
    → IsDottedPrefix q (or_empty o)
    → IsDottedPrefix q p
unfolding or_empty
below_or_empty q p none h some_text b = absurd (not_below_empty q some_text b)
below_or_empty q p (some t) h some_text b = let (r, e) = h t refl in below_parent q p t r e b

IsDottedPrefix-parent : (q p : Text) → q ≢ [] → IsDottedPrefix q (parent p) → IsDottedPrefix q p
unfolding parent
IsDottedPrefix-parent q p some_text h = below_or_empty q p (last_dot p) (last_dot_lem p) some_text h

cons_not_empty : (c : ℕ) (s : Text) → c ∷ s ≡ [] → ⊥
cons_not_empty c s e = ground arith

nearest_from-enough :
    (names : List Text) (n m : ℕ) (p : Text)
    → length p ≤ n
    → length p ≤ m
    → nearest_from names n p ≡ nearest_from names m p
unfolding nearest_from
nearest_from-enough names zero zero p h k = refl
nearest_from-enough names zero (suc m) [] h k = refl
nearest_from-enough names zero (suc m) (c ∷ s) h k = absurd (omega arith)
nearest_from-enough names (suc n) zero [] h k = refl
nearest_from-enough names (suc n) zero (c ∷ s) h k = absurd (omega arith)
nearest_from-enough names (suc n) (suc m) [] h k = refl
nearest_from-enough names (suc n) (suc m) (c ∷ s) h k =
    ap (λ x. if mem_text (c ∷ s) names then some (c ∷ s) else x)
      (nearest_from-enough names n m (parent (c ∷ s)) (let b = length-parent c s in omega arith)
        (let b = length-parent c s in omega arith))

pub if_some :
    (b : Bool) (x : Text) (o : Option Text) (q : Text)
    → (if b then some x else o) ≡ some q
    → ((b ≡ true) × (x ≡ q)) ⊎ ((b ≡ false) × (o ≡ some q))
if_some true x o q e = inl (refl, some_injective x q e)
if_some false x o q e = inr (refl, e)

nearest_from-IsDottedPrefix :
    (names : List Text) (n : ℕ) (p q : Text)
    → nearest_from names n p ≡ some q
    → (mem_text q names ≡ true) × (q ≢ []) × IsDottedPrefix q p
unfolding nearest_from IsDottedPrefix
nearest_from-IsDottedPrefix names zero p q e = ground arith
nearest_from-IsDottedPrefix names (suc n) [] q e = ground arith
nearest_from-IsDottedPrefix names (suc n) (c ∷ s) q e =
    elim (if_some (mem_text (c ∷ s) names) (c ∷ s) (nearest_from names n (parent (c ∷ s))) q e) [
      | inl (h, p) ↦
          (subst (λ x. mem_text x names ≡ true) p h, (λ z. cons_not_empty c s (p ∙ z)), inl (sym p))
      | inr (h, p) ↦
          let (m, t, d) = nearest_from-IsDottedPrefix names n (parent (c ∷ s)) q p in
          (m, t, IsDottedPrefix-parent q (c ∷ s) t d)
    ]

pub nearest-IsDottedPrefix :
    (names : List Text) (p q : Text)
    → nearest names p ≡ some q
    → (mem_text q names ≡ true) × IsDottedPrefix q p
unfolding nearest
nearest-IsDottedPrefix names p q e =
    let (m, t, d) = nearest_from-IsDottedPrefix names (length p) p q e in (m, d)
