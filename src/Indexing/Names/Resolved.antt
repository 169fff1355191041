-- ===== src/Indexing/Names/Resolved.antt =====
-- core/src/core/indexing/indexer.py: what `_resolve_name` resolves a name to, and why.
use repo_agent.Prelude.{
  ℕ, zero, suc, ◌≤◌, ◌<◌, ◌≡◌, refl, sym, ap, ◌∙◌, subst, ◌⊎◌, inl, inr, Bool, true, false, ◌||◌,
  Option, none, some, List, [], ◌∷◌, arith, if◌then◌else◌, Bool-cases,
}
use repo_agent.Prelude.Words.{Text, same_text, mem_text, same_text_refl, same_text_sound}
use repo_agent.Indexing.Dotted.{partition, join, get}
use repo_agent.Indexing.Dotted.Prefixes.{some_injective}
use repo_agent.Indexing.Names.{
  Index, Site, hop, follow_from, follow_reexports, first_indexed, or_later, candidates_of, owner_of,
  has_dot, resolve_on_instance, matches_of, only, is_instance_name, resolve_parts, resolve_name,
}

-- The name is reached from another by so many re-exports, and is indexed.
pub data Leads (ix : Index) : ℕ → Text → Text → Type 0 where
  indexed : {c q : Text} → get c ix.qn_index ≡ some q → Leads ix 0 c q
  exported : {n : ℕ} {c d q : Text} → hop ix c ≡ some d → Leads ix n d q → Leads ix (suc n) c q

-- It is reached within the hops that are followed.
unfoldable pub LeadsSoon : Index → Text → Text → Type 0
LeadsSoon ix c q = (n : ℕ) × (n ≤ 4) × Leads ix n c q

if_either :
    (b : Bool) (x y : Option Text) (q : Text)
    → (if b then x else y) ≡ some q
    → (x ≡ some q) ⊎ (y ≡ some q)
if_either true x y q e = inl e
if_either false x y q e = inr e

if_true : (b : Bool) (x y : Option Text) → b ≡ true → (if b then x else y) ≡ x
if_true b x y h = rw h refl

if_false : (b : Bool) (x y : Option Text) → b ≡ false → (if b then x else y) ≡ y
if_false b x y h = rw h refl

or_left : (a b : Bool) → a ≡ true → (a || b) ≡ true
or_left a b h = ground arith

or_right : (a b : Bool) → b ≡ true → (a || b) ≡ true
or_right a b h = ground arith

or_false : (a : Bool) → (a || false) ≡ true → a ≡ true
or_false a h = ground arith

module _ (ix : Index) where
  -- One pass, on what the look-up, the test of the visited names and the hop give.
  pass_cases :
      (left : ℕ) (visited : List Text) (c q : Text) (g : Option Text) (b : Bool) (h : Option Text)
      → get c ix.qn_index ≡ g
      → hop ix c ≡ h
      → ((vs : List Text) (d : Text)
          → follow_from ix left vs d ≡ some q
          → (n : ℕ) × (n < left) × Leads ix n d q)
      → elim g as (λ _. Option Text) [
        | some r ↦ some r
        | none ↦ if b then none else elim h as (λ _. Option Text) [
          | none ↦ none
          | some d ↦ follow_from ix left (c ∷ visited) d
        ]
      ]
        ≡ some q
      → (n : ℕ) × (n < suc left) × Leads ix n c q
  pass_cases left visited c q (some r) b h eg eh go e = (0, omega arith, indexed (eg ∙ e))
  pass_cases left visited c q none true h eg eh go e = ground arith
  pass_cases left visited c q none false none eg eh go e = ground arith
  pass_cases left visited c q none false (some d) eg eh go e =
      let (n, l, r) = go (c ∷ visited) d e in (suc n, omega arith, exported eh r)

  follow_from-Leads :
      (left : ℕ) (visited : List Text) (c q : Text)
      → follow_from ix left visited c ≡ some q
      → (n : ℕ) × (n < left) × Leads ix n c q
  unfolding follow_from
  follow_from-Leads zero visited c q e = ground arith
  follow_from-Leads (suc left) visited c q e =
      pass_cases left visited c q (get c ix.qn_index) (mem_text c visited) (hop ix c) refl refl
        (λ vs d. follow_from-Leads left vs d q) e

  follow_reexports-LeadsSoon : (c q : Text) → follow_reexports ix c ≡ some q → LeadsSoon ix c q
  unfolding follow_reexports LeadsSoon
  follow_reexports-LeadsSoon c q e =
      let (n, l, r) = follow_from-Leads 5 [] c q e in (n, omega arith, r)

  or_later_cases :
      (o later : Option Text) (q : Text)
      → or_later o later ≡ some q
      → (o ≡ some q) ⊎ (later ≡ some q)
  unfolding or_later
  or_later_cases none later q e = inr e
  or_later_cases (some r) later q e = inl e

  -- Some candidate leads there.
  first_indexed-LeadsSoon :
      (seen candidates : List Text) (q : Text)
      → first_indexed ix seen candidates ≡ some q
      → (c : Text) × (mem_text c candidates ≡ true) × LeadsSoon ix c q
  unfolding first_indexed mem_text
  first_indexed-LeadsSoon seen [] q e = ground arith
  first_indexed-LeadsSoon seen (c ∷ candidates) q e = elim (if_either _ _ _ q e) [
    | inl h ↦
        let (d, m, l) = first_indexed-LeadsSoon seen candidates q h in
        (d, or_right (same_text d c) _ m, l)
    | inr h ↦ elim (or_later_cases (follow_reexports ix c) _ q h) [
      | inl k ↦ (c, or_left (same_text c c) _ (same_text_refl c), follow_reexports-LeadsSoon c q k)
      | inr k ↦
          let (d, m, l) = first_indexed-LeadsSoon (c ∷ seen) candidates q k in
          (d, or_right (same_text d c) _ m, l)
    ]
  ]

  leads_same : (c d q : Text) → mem_text d (c ∷ []) ≡ true → LeadsSoon ix d q → LeadsSoon ix c q
  unfolding mem_text
  leads_same c d q m l =
      subst (λ x. LeadsSoon ix x q) (same_text_sound d c (or_false (same_text d c) m)) l

-- Why a name in the source is resolved to q: one of its candidates leads to q; or it is self.f or cls.f
-- and f in its class leads to q; or it has no dot and q is the one name of the index that the file can
-- see and that ends in it.
pub data Justified (ix : Index) (site : Site) (callee q : Text) : Type 0 where
  by_candidate :
      (c : Text)
      → mem_text c (candidates_of site callee) ≡ true
      → LeadsSoon ix c q
      → Justified ix site callee q
  by_owner :
      (head rest owner : Text)
      → partition callee ≡ (head, some rest)
      → is_instance_name head ≡ true
      → has_dot rest ≡ false
      → owner_of ix site.caller_qn ≡ some owner
      → LeadsSoon ix (join owner rest) q
      → Justified ix site callee q
  by_name :
      (head : Text)
      → partition callee ≡ (head, none)
      → matches_of ix site callee ≡ q ∷ []
      → Justified ix site callee q

only_lem : (ms : List Text) (q : Text) → only ms ≡ some q → ms ≡ q ∷ []
unfolding only
only_lem [] q e = ground arith
only_lem (m ∷ []) q e = ap (λ x. x ∷ []) (some_injective m q e)
only_lem (m ∷ n ∷ ms) q e = ground arith

module _ (ix : Index) (site : Site) (callee q : Text) where
  candidates-Justified :
      first_indexed ix [] (candidates_of site callee) ≡ some q → Justified ix site callee q
  candidates-Justified e =
      let (c, m, l) = first_indexed-LeadsSoon ix [] (candidates_of site callee) q e in
      by_candidate c m l

  owner_cases :
      (head rest : Text) (o : Option Text) (dotted : Bool)
      → partition callee ≡ (head, some rest)
      → is_instance_name head ≡ true
      → has_dot rest ≡ dotted
      → owner_of ix site.caller_qn ≡ o
      → (if dotted then none else elim o as (λ _. Option Text) [
        | none ↦ none
        | some owner ↦ first_indexed ix [] (join owner rest ∷ [])
      ])
        ≡ some q
      → Justified ix site callee q
  owner_cases head rest o true p i h k e = ground arith
  owner_cases head rest none false p i h k e = ground arith
  owner_cases head rest (some owner) false p i h k e =
      let (c, m, l) = first_indexed-LeadsSoon ix [] (join owner rest ∷ []) q e in
      by_owner head rest owner p i h k (leads_same ix (join owner rest) c q m l)

  resolve_parts-Justified :
      (parts : Text × Option Text)
      → partition callee ≡ parts
      → resolve_parts ix site callee parts ≡ some q
      → Justified ix site callee q
  unfolding resolve_parts resolve_on_instance
  resolve_parts-Justified (head, none) p e =
      elim (or_later_cases ix (first_indexed ix [] (candidates_of site callee)) _ q e) [
        | inl h ↦ candidates-Justified h
        | inr h ↦ by_name head p (only_lem (matches_of ix site callee) q h)
      ]
  resolve_parts-Justified (head, some rest) p e = elim (Bool-cases (is_instance_name head)) [
    | inl i ↦
        owner_cases head rest (owner_of ix site.caller_qn) (has_dot rest) p i refl refl
          (sym (if_true (is_instance_name head) _ _ i) ∙ e)
    | inr i ↦ candidates-Justified (sym (if_false (is_instance_name head) _ _ i) ∙ e)
  ]

-- A name is resolved only to what a rule justifies: an import of the file, its own module or the name
-- as it stands, followed through four re-exports at most; a method of the class that surrounds it;
-- or, for a name without a dot only, the one indexed name that the file can see. A call on an
-- attribute of unknown type is never resolved by its last name.
pub resolve_name-Justified :
    (ix : Index) (site : Site) (callee q : Text)
    → resolve_name ix site callee ≡ some q
    → Justified ix site callee q
unfolding resolve_name
resolve_name-Justified ix site callee q e =
    resolve_parts-Justified ix site callee q (partition callee) refl e
