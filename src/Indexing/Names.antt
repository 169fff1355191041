-- ===== src/Indexing/Names.antt =====
-- core/src/core/indexing/indexer.py: the resolution of a name in the source to an indexed one.
pub mod Resolved
use repo_agent.Prelude.{
  ℕ, zero, suc, ◌+◌, Bool, true, false, Option, none, some, List, [], ◌∷◌, ◌++◌, if◌then◌else◌,
  length, drop,
}
use repo_agent.Prelude.Text.{codes}
use repo_agent.Prelude.Words.{Text, same_text, mem_text}
use repo_agent.Indexing.Dotted.{parent, partition, join, get, nearest}
use repo_agent.Indexing.Imports.{Bindings}

-- What a name is resolved against; `none` where the source has None.
pub record Index : Type 0 where
  pub qn_index : List (Text × Text)
  pub name_index : List (Text × List Text)
  pub module_qns : Option (List Text)
  pub class_qns : Option (List Text)
  pub reexports : Option (List (Text × Bindings))

-- The file that the name stands in.
pub record Site : Type 0 where
  pub module_name : Text
  pub caller_qn : Text
  pub bindings : Option Bindings
  pub visible_modules : Option (List Text)

-- qn_index[qualified_name] = qualified_name
set_name : Text → List (Text × Text) → List (Text × Text)
unfolding same_text
set_name q [] = (q, q) ∷ []
set_name q ((j, w) ∷ d) = if same_text j q then (j, q) ∷ d else (j, w) ∷ set_name q d

-- bucket.append(qualified_name), unless it is there
add_to_bucket : Text → Text → List (Text × List Text) → List (Text × List Text)
unfolding same_text mem_text
add_to_bucket q name [] = (name, q ∷ []) ∷ []
add_to_bucket q name ((j, bucket) ∷ d) =
    if same_text j name
    then (j, if mem_text q bucket then bucket else bucket ++ q ∷ []) ∷ d
    else (j, bucket) ∷ add_to_bucket q name d

unfoldable pub add_name : Text → Text → Index → Index
unfolding set_name add_to_bucket
add_name qualified_name name ix = record ix {
  qn_index = set_name qualified_name ix.qn_index;
  name_index = add_to_bucket qualified_name name ix.name_index;
}

-- _owning_module and _enclosing_class
unfoldable pub owning_module : Text → List Text → Option Text
unfolding nearest
owning_module qualified_name module_qns = nearest module_qns qualified_name

unfoldable pub enclosing_class : Text → List Text → Option Text
unfolding nearest parent
enclosing_class qualified_name class_qns = nearest class_qns (parent qualified_name)

exported_by : Text → List (Text × Bindings) → Bindings
unfolding get
exported_by owner reexports = elim (get owner reexports) [ none ↦ [] | some d ↦ d ]

-- f"{target}.{tail}" if dot else target; an empty target leads nowhere.
renamed : Option Text → Option Text → Option Text
unfolding join
renamed none tail = none
renamed (some []) tail = none
renamed (some (c ∷ s)) none = some (c ∷ s)
renamed (some (c ∷ s)) (some tail) = some (join (c ∷ s) tail)

hop_in : List (Text × Bindings) → Text → Option Text → Option Text
unfolding exported_by renamed get partition same_text
hop_in reexports current none = none
hop_in reexports current (some owner) =
    if same_text owner current
    then none
    else (let (first, tail) = partition (drop (length owner + 1) current) in
        renamed (get first (exported_by owner reexports)) tail)

-- if not reexports or module_qns is None: the rewriting of the first segment behind the owner.
unfoldable pub hop : Index → Text → Option Text
unfolding hop_in owning_module
hop ix current = elim ix.module_qns [
  | none ↦ none
  | some modules ↦ elim ix.reexports [
    | none ↦ none
    | some reexports ↦ hop_in reexports current (owning_module current modules)
  ]
]

-- for _ in range(_REEXPORT_MAX_HOPS + 1), with the passes that are left.
unfoldable pub follow_from : Index → ℕ → List Text → Text → Option Text
unfolding get hop mem_text
follow_from ix zero visited current = none
follow_from ix (suc n) visited current = elim (get current ix.qn_index) [
  | some q ↦ some q
  | none ↦ if mem_text current visited then none else elim (hop ix current) [
    | none ↦ none
    | some next ↦ follow_from ix n (current ∷ visited) next
  ]
]

abbrev reexport_max_hops : ℕ
reexport_max_hops = 4

unfoldable pub follow_reexports : Index → Text → Option Text
unfolding follow_from
follow_reexports ix candidate = follow_from ix (reexport_max_hops + 1) [] candidate

or_later : Option Text → Option Text → Option Text
or_later none later = later
or_later (some q) later = some q

-- A candidate that has been seen leads nowhere again.
unfoldable pub first_indexed : Index → List Text → List Text → Option Text
unfolding follow_reexports or_later mem_text
first_indexed ix seen [] = none
first_indexed ix seen (c ∷ candidates) =
    if mem_text c seen
    then first_indexed ix seen candidates
    else or_later (follow_reexports ix c) (first_indexed ix (c ∷ seen) candidates)

abbrev instance_names : List Text
instance_names = codes "self" ∷ codes "cls" ∷ []

unfoldable pub has_dot : Text → Bool
has_dot s = elim (partition s).1 [ none ↦ false | some rest ↦ true ]

unfoldable pub owner_of : Index → Text → Option Text
unfolding enclosing_class parent
owner_of ix caller_qn = elim ix.class_qns [
  | some classes ↦ enclosing_class caller_qn classes
  | none ↦ elim (parent caller_qn) [ [] ↦ none | ◌∷◌ c s ↦ some (c ∷ s) ]
]

-- self.run() and cls.run()
resolve_on_instance : Index → Text → Text → Option Text
unfolding has_dot owner_of first_indexed join
resolve_on_instance ix caller_qn rest =
    if has_dot rest then none else elim (owner_of ix caller_qn) [
      | none ↦ none
      | some owner ↦ first_indexed ix [] (join owner rest ∷ [])
    ]

bound_candidate : Option Bindings → Text → Option Text → List Text
unfolding renamed get
bound_candidate none head rest = []
bound_candidate (some d) head rest = elim (renamed (get head d) rest) [
  | none ↦ []
  | some t ↦ t ∷ []
]

in_module : Text → Text → List Text
unfolding join
in_module [] callee = []
in_module (c ∷ s) callee = join (c ∷ s) callee ∷ []

unfoldable pub candidates_of : Site → Text → List Text
unfolding bound_candidate in_module partition
candidates_of site callee =
    let (head, rest) = partition callee in
    bound_candidate site.bindings head rest ++ (in_module site.module_name callee ++ callee ∷ [])

owned_by : List Text → Option Text → Bool
unfolding mem_text
owned_by visible none = false
owned_by visible (some owner) = mem_text owner visible

visible_among : List Text → List Text → List Text → List Text
unfolding owned_by owning_module
visible_among visible modules [] = []
visible_among visible modules (m ∷ matches) =
    let rest = visible_among visible modules matches in
    if owned_by visible (owning_module m modules) then m ∷ rest else rest

or_nothing : Option (List Text) → List Text
or_nothing none = []
or_nothing (some ms) = ms

visible_matches : Option (List Text) → Option (List Text) → List Text → List Text
unfolding visible_among
visible_matches (some visible) (some modules) matches = visible_among visible modules matches
visible_matches (some visible) none matches = matches
visible_matches none modules matches = matches

-- name_index.get(callee, []), less what the file does not import.
unfoldable pub matches_of : Index → Site → Text → List Text
unfolding visible_matches or_nothing get
matches_of ix site callee =
    visible_matches site.visible_modules ix.module_qns (or_nothing (get callee ix.name_index))

only : List Text → Option Text
only [] = none
only (m ∷ []) = some m
only (m ∷ n ∷ ms) = none

unfoldable pub is_instance_name : Text → Bool
unfolding mem_text
is_instance_name head = mem_text head instance_names

resolve_parts : Index → Site → Text → Text × Option Text → Option Text
unfolding is_instance_name resolve_on_instance first_indexed candidates_of or_later only matches_of
resolve_parts ix site callee (head, none) =
    or_later (first_indexed ix [] (candidates_of site callee)) (only (matches_of ix site callee))
resolve_parts ix site callee (head, some rest) =
    if is_instance_name head
    then resolve_on_instance ix site.caller_qn rest
    else first_indexed ix [] (candidates_of site callee)

unfoldable pub resolve_name : Index → Site → Text → Option Text
unfolding resolve_parts partition
resolve_name ix site callee = resolve_parts ix site callee (partition callee)
