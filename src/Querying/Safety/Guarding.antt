-- ===== src/Querying/Safety/Guarding.antt =====
-- core/src/core/querying/safety.py, `guard_readonly`: which queries it lets pass.
use repo_agent.Prelude.{
  ℕ, zero, suc, ◌+◌, ◌≤◌, ◌<◌, String, ◌≡◌, refl, sym, ap, ◌∙◌, subst, ◌⊎◌, inl, inr, Bool, true,
  false, Option, none, some, List, [], ◌∷◌, ◌++◌, map, arith, if◌then◌else◌, Bool-cases, dec_lt,
}
use repo_agent.Prelude.Text.{is_word, to_upper}
use repo_agent.Querying.Safety.Pieces.{
  Piece, block_comment, Finish, render, masked, is_well_formed, strip_comments_and_strings-render,
  strip-block_comment,
}
use repo_agent.Querying.Safety.{
  strip_comments_and_strings, normalize_cypher, hits, search_from, Clause, write_clauses, earlier,
  earliest_clause, Guarded, accepted, rejected, verdict, guard_readonly,
}

-- The clause stands in the text, `n` characters from its start; `inner` says whether a word character
-- stands in front of the text.
unfoldable pub At : Clause → Bool → ℕ → List ℕ → Type 0
At c inner n [] = ⊥
At c inner zero (x ∷ s) = hits c.pattern c.keep inner (x ∷ s) ≡ true
At c inner (suc n) (x ∷ s) = At c (is_word x) n s

-- No occurrence in front of the first `n` characters, and one there, if the search has found one.
Searched : Clause → Bool → ℕ → List ℕ → Option (ℕ × List ℕ) → Type 0
Searched c inner i s none = (n : ℕ) → At c inner n s → ⊥
Searched c inner i s (some (k, t)) =
    (n : ℕ) × (k ≡ i + n) × At c inner n s × ((j : ℕ) → j < n → At c inner j s → ⊥)

search-here :
    (c : Clause) (inner : Bool) (i x : ℕ) (s : List ℕ)
    → hits c.pattern c.keep inner (x ∷ s) ≡ true
    → Searched c inner i (x ∷ s) (some (i, x ∷ s))
unfolding Searched At
search-here c inner i x s h = (0, omega arith, h, λ j less. absurd (omega arith))

clash : true ≡ false → ⊥
clash e = subst (λ b. if b then Unit else ⊥) e tt

not-At :
    (c : Clause) (inner : Bool) (n x : ℕ) (s : List ℕ)
    → hits c.pattern c.keep inner (x ∷ s) ≡ false
    → ((m : ℕ) → n ≡ suc m → At c (is_word x) m s → ⊥)
    → At c inner n (x ∷ s)
    → ⊥
unfolding At
not-At c inner zero x s h none_later at = clash (sym at ∙ h)
not-At c inner (suc n) x s h none_later at = none_later n refl at

later :
    (c : Clause) (inner : Bool) (i x : ℕ) (s : List ℕ) (found : Option (ℕ × List ℕ))
    → hits c.pattern c.keep inner (x ∷ s) ≡ false
    → Searched c (is_word x) (i + 1) s found
    → Searched c inner i (x ∷ s) found
unfolding Searched At
later c inner i x s none h none_later = λ n at. not-At c inner n x s h (λ m e. none_later m) at
later c inner i x s (some (k, t)) h (n, same, at, first) =
    (suc n, omega arith, at, λ j less. not-At c inner j x s h (λ m e. first m (omega arith)))

search-Searched :
    (c : Clause) (i : ℕ) (inner : Bool) (s : List ℕ)
    → Searched c inner i s (search_from c.pattern c.keep i inner s)
unfolding search_from Searched At
search-Searched c i inner [] = λ n at. at
search-Searched c i inner (x ∷ s) = elim (Bool-cases (hits c.pattern c.keep inner (x ∷ s))) [
  | inl h ↦ rw (h, search_from) (search-here c inner i x s h)
  | inr h ↦ rw (h, search_from) (later c inner i x s _ h (search-Searched c (i + 1) (is_word x) s))
]

-- The clause is one of the list.
unfoldable pub IsOneOf : Clause → List Clause → Type 0
IsOneOf c [] = ⊥
IsOneOf c (d ∷ ds) = (c ≡ d) ⊎ IsOneOf c ds

-- What is found among the clauses that satisfy `P`: none that stands in the text, or the name of one
-- that stands in it where no other stands earlier.
Earliest : (Clause → Type 0) → List ℕ → Option (ℕ × String) → Type 0
unfolding At
Earliest P text none = (c : Clause) (n : ℕ) → P c → At c false n text → ⊥
Earliest P text (some (k, name)) =
    ((c : Clause) × P c × (c.name ≡ name) × At c false k text)
    × ((c : Clause) (j : ℕ) → P c → j < k → At c false j text → ⊥)

-- What the search of a clause from the start has found.
Found : Clause → List ℕ → Option (ℕ × List ℕ) → Type 0
Found c text none = (n : ℕ) → At c false n text → ⊥
Found c text (some (k, t)) = At c false k text × ((j : ℕ) → j < k → At c false j text → ⊥)

searched-Found :
    (c : Clause) (text : List ℕ) (found : Option (ℕ × List ℕ))
    → Searched c false 0 text found
    → Found c text found
unfolding Searched Found
searched-Found c text none none_at = none_at
searched-Found c text (some (k, t)) (n, same, at, first) =
    let e : k ≡ n = omega arith in
    (subst (λ m. At c false m text) (sym e) at, λ j less. first j (omega arith))

same_clause :
    (c d : Clause) (j : ℕ) (text : List ℕ) → d ≡ c → (At c false j text → ⊥) → At d false j text → ⊥
same_clause c d j text e away at = away (subst (λ x. At x false j text) e at)

picks :
    (i k : ℕ) (name old : String) (t : List ℕ)
    → i < k
    → earlier (some (k, old)) name (some (i, t)) ≡ some (i, name)
unfolding earlier
picks i k name old t less = ground arith

stays :
    (i k : ℕ) (name old : String) (t : List ℕ)
    → k ≤ i
    → earlier (some (k, old)) name (some (i, t)) ≡ some (k, old)
unfolding earlier
stays i k name old t more = ground arith

regroup : (A B C : Type 0) → (A ⊎ B) ⊎ C → A ⊎ (B ⊎ C)
regroup A B C (inl (inl a)) = inl a
regroup A B C (inl (inr b)) = inr (inl b)
regroup A B C (inr c) = inr (inr c)

ungroup : (A B C : Type 0) → A ⊎ (B ⊎ C) → (A ⊎ B) ⊎ C
ungroup A B C (inl a) = inl (inl a)
ungroup A B C (inr (inl b)) = inl (inr b)
ungroup A B C (inr (inr c)) = inr c

earlier-Earliest :
    (P : Clause → Type 0) (c : Clause) (text : List ℕ) (acc : Option (ℕ × String))
    (found : Option (ℕ × List ℕ))
    → Earliest P text acc
    → Found c text found
    → Earliest (λ d. P d ⊎ (d ≡ c)) text (earlier acc c.name found)
unfolding Earliest Found earlier
earlier-Earliest P c text none none e f =
    λ d n side. elim side [ inl p ↦ e d n p | inr same ↦ same_clause c d n text same (f n) ]
earlier-Earliest P c text none (some (k, t)) e (at, first) = (
  (c, inr refl, refl, at),
  λ d j side less. elim side [
    | inl p ↦ e d j p
    | inr same ↦ same_clause c d j text same (first j less)
  ],
)
earlier-Earliest P c text (some (k, old)) none ((d, p, named, at), first) f = (
  (d, inl p, named, at),
  λ d' j side less. elim side [
    | inl q ↦ first d' j q less
    | inr same ↦ same_clause c d' j text same (f j)
  ],
)
earlier-Earliest P c text (some (k, old)) (some (i, t)) ((d, p, named, at), first) (here, before) =
    elim (dec_lt i k) [
      | yes less ↦ subst (Earliest (λ d. P d ⊎ (d ≡ c)) text) (sym (picks i k c.name old t less)) (
        (c, inr refl, refl, here),
        λ d' j side below. elim side [
          | inl q ↦ first d' j q (omega arith)
          | inr same ↦ same_clause c d' j text same (before j below)
        ],
      )
      | no more ↦
          subst (Earliest (λ d. P d ⊎ (d ≡ c)) text) (sym (stays i k c.name old t (omega arith))) (
            (d, inl p, named, at),
            λ d' j side below. elim side [
              | inl q ↦ first d' j q below
              | inr same ↦ same_clause c d' j text same (before j (omega arith))
            ],
          )
    ]

weaker :
    (P Q : Clause → Type 0) (text : List ℕ) (r : Option (ℕ × String))
    → ((c : Clause) → P c → Q c)
    → ((c : Clause) → Q c → P c)
    → Earliest P text r
    → Earliest Q text r
unfolding Earliest
weaker P Q text none to from e = λ c n q. e c n (from c q)
weaker P Q text (some (k, name)) to from ((c, p, named, at), first) =
    ((c, to c p, named, at), λ d j q. first d j (from d q))

loop-Earliest :
    (P : Clause → Type 0) (cs : List Clause) (text : List ℕ) (acc : Option (ℕ × String))
    → Earliest P text acc
    → Earliest (λ c. P c ⊎ IsOneOf c cs) text (earliest_clause cs text acc)
unfolding earliest_clause IsOneOf
loop-Earliest P [] text acc e =
    weaker P _ text acc (λ c p. inl p) (λ c side. elim side [ inl p ↦ p | inr out ↦ absurd out ]) e
loop-Earliest P (c ∷ cs) text acc e =
    let found = search_from c.pattern c.keep 0 false text in
    let step =
      earlier-Earliest P c text acc found e
        (searched-Found c text found (search-Searched c 0 false text)) in
    weaker (λ d. (P d ⊎ (d ≡ c)) ⊎ IsOneOf d cs) _ text
      (earliest_clause cs text (earlier acc c.name found)) (λ d side. regroup (P d) _ _ side)
      (λ d side. ungroup (P d) _ _ side)
      (loop-Earliest (λ d. P d ⊎ (d ≡ c)) cs text (earlier acc c.name found) step)

-- What a result of `guard_readonly` on a query says of a text. Accepted: the query is returned as it
-- is, and no write clause stands anywhere in the text. Rejected: a write clause of the name reported
-- stands in the text, and no write clause stands in front of it.
unfoldable pub Decides : List ℕ → List ℕ → Guarded → Type 0
unfolding At IsOneOf
Decides text cypher (accepted r) =
    (r ≡ cypher) × ((c : Clause) (n : ℕ) → IsOneOf c write_clauses → At c false n text → ⊥)
Decides text cypher (rejected name) =
    (k : ℕ) × ((c : Clause) × IsOneOf c write_clauses × (c.name ≡ name) × At c false k text)
    × ((c : Clause) (j : ℕ) → IsOneOf c write_clauses → j < k → At c false j text → ⊥)

verdict-Decides :
    (text cypher : List ℕ) (r : Option (ℕ × String))
    → Earliest (λ c. IsOneOf c write_clauses) text r
    → Decides text cypher (verdict cypher r)
unfolding Decides Earliest verdict
verdict-Decides text cypher none none_at = (refl, none_at)
verdict-Decides text cypher (some (k, name)) (found, first) = (k, found, first)

normalized-Decides :
    (cypher : List ℕ) → Decides (normalize_cypher cypher) cypher (guard_readonly cypher)
unfolding guard_readonly Earliest
normalized-Decides cypher =
    let text = normalize_cypher cypher in
    verdict-Decides text cypher _ (
      weaker (λ c. ⊥ ⊎ IsOneOf c write_clauses) (λ c. IsOneOf c write_clauses) text
        (earliest_clause write_clauses text none)
        (λ c side. elim side [ inl out ↦ absurd out | inr p ↦ p ]) (λ c p. inr p)
        (loop-Earliest (λ c. ⊥) write_clauses text none (λ c n out. absurd out)))

normalize_cypher-render :
    (pieces : List Piece) (f : Finish)
    → is_well_formed pieces f ≡ true
    → normalize_cypher (render pieces f) ≡ map to_upper (masked pieces)
unfolding normalize_cypher
normalize_cypher-render pieces f w =
    ap (map to_upper) (strip_comments_and_strings-render pieces f w)

-- Take a query that is made of characters outside, line and block comments, and quoted literals with
-- backslash escapes and doubled quotes, and that may end in a line comment. Let its masked text be what
-- it has in upper case when a line comment is a newline, a literal a space, and a block comment
-- nothing at all. If the query is let pass, it is returned as it is, and no write clause stands
-- anywhere in the masked text. If it is rejected, a write clause of the name reported stands in the
-- masked text, and no write clause stands in front of it. As a block comment leaves nothing, what it
-- separates in the query is joined in the masked text.
pub guard_readonly-Decides :
    (pieces : List Piece) (f : Finish)
    → is_well_formed pieces f ≡ true
    → Decides (map to_upper (masked pieces)) (render pieces f) (guard_readonly (render pieces f))
guard_readonly-Decides pieces f w =
    subst (λ text. Decides text (render pieces f) (guard_readonly (render pieces f)))
      (normalize_cypher-render pieces f w) (normalized-Decides (render pieces f))

-- The clause that a rejection names.
unfoldable pub named : Guarded → Option String
named (accepted cypher) = none
named (rejected name) = some name

clause_name : Option (ℕ × String) → Option String
clause_name none = none
clause_name (some (i, name)) = some name

named-verdict :
    (cypher : List ℕ) (r : Option (ℕ × String)) → named (verdict cypher r) ≡ clause_name r
unfolding named verdict clause_name
named-verdict cypher none = refl
named-verdict cypher (some (i, name)) = refl

named-guard_readonly :
    (cypher : List ℕ)
    → named (guard_readonly cypher)
      ≡ clause_name (earliest_clause write_clauses (normalize_cypher cypher) none)
unfolding guard_readonly
named-guard_readonly cypher = named-verdict cypher _

same_normal :
    (q r : List ℕ)
    → strip_comments_and_strings q ≡ strip_comments_and_strings r
    → named (guard_readonly q) ≡ named (guard_readonly r)
unfolding normalize_cypher
same_normal q r e =
    named-guard_readonly q
    ∙ ap (λ s. clause_name (earliest_clause write_clauses (map to_upper s) none)) e
    ∙ sym (named-guard_readonly r)

-- A block comment anywhere in a query, which separates words to a reader of the query, changes
-- nothing for `guard_readonly`: it accepts the query, or names the same clause, exactly as it does
-- for the query in which the parts before and behind the comment are joined, if both queries are well
-- formed. So a write clause whose word is set off by a comment alone is not found.
pub guard_readonly-joins :
    (pieces rest : List Piece) (s : List ℕ) (f : Finish)
    → is_well_formed (pieces ++ block_comment s ∷ rest) f ≡ true
    → is_well_formed (pieces ++ rest) f ≡ true
    → named (guard_readonly (render (pieces ++ block_comment s ∷ rest) f))
      ≡ named (guard_readonly (render (pieces ++ rest) f))
guard_readonly-joins pieces rest s f v w =
    same_normal (render (pieces ++ block_comment s ∷ rest) f) (render (pieces ++ rest) f)
      (strip-block_comment pieces rest s f v w)
