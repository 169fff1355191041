-- ===== src/Orchestration/Router/Names.antt =====
-- core/src/core/orchestration/router.py: the names that a query mentions. The regular expressions are
-- written out as scans of ASCII text; `findall` goes on behind a match, which the scans do by counting
-- the characters to skip.
pub mod Terms
use repo_agent.Prelude.{
  ℕ, zero, suc, ◌+◌, ◌-◌, Bool, true, false, not, ◌&&◌, ◌||◌, Option, none, some, List, [], ◌∷◌,
  ◌++◌, map, leb, ◌==◌, if◌then◌else◌, length,
}
use repo_agent.Prelude.Text.{codes, is_upper, is_lower, is_digit, is_word}
use repo_agent.Prelude.Words.{Text, lower, strip, has_any, has_any_word, mem_text, dedupe}
use repo_agent.Orchestration.Router.Fillers.{lookup_filler, identifier_filler_exceptions}

take_while : (ℕ → Bool) → Text → Text
take_while p [] = []
take_while p (c ∷ s) = if p c then c ∷ take_while p s else []

drop_while : (ℕ → Bool) → Text → Text
drop_while p [] = []
drop_while p (c ∷ s) = if p c then drop_while p s else c ∷ s

is_quote : ℕ → Bool
is_quote c = c == 96 || (c == 34 || c == 39)

-- The text in front of the next `q`.
until : ℕ → Text → Option Text
until q [] = none
until q (c ∷ s) = elim (c == q) [
  | true ↦ some []
  | false ↦ elim (until q s) [ none ↦ none | some t ↦ some (c ∷ t) ]
]

-- `([^`]+)`|"([^"]+)"|'([^']+)'
quoted_from : ℕ → Text → List Text
unfolding is_quote until
quoted_from k [] = []
quoted_from (suc k) (c ∷ s) = quoted_from k s
quoted_from zero (c ∷ s) = elim (is_quote c) [
  | true ↦ elim (until c s) [
    | none ↦ quoted_from 0 s
    | some t ↦ elim t [
      | [] ↦ quoted_from 0 s
      | ◌∷◌ d u ↦ (d ∷ u) ∷ quoted_from (length (d ∷ u) + 1) s
    ]
  ]
  | false ↦ quoted_from 0 s
]

is_snake : ℕ → Bool
unfolding is_lower is_digit
is_snake c = is_lower c || (is_digit c || c == b'_')

is_dotted : ℕ → Bool
unfolding is_snake
is_dotted c = is_snake c || c == b'.'

begins_word : Text → Bool
unfolding is_word
begins_word [] = false
begins_word (c ∷ s) = is_word c

-- [A-Z][A-Za-z0-9_]+\b
camel_case : Text → Option Text
unfolding take_while is_upper is_word
camel_case [] = none
camel_case (c ∷ []) = none
camel_case (c ∷ d ∷ s) =
    if is_upper c && is_word d then some (c ∷ d ∷ take_while is_word s) else none

-- The longest prefix of the run, not empty, that ends at a \b.
to_boundary : Text → Text → Option Text
unfolding is_word begins_word
to_boundary [] after = none
to_boundary (c ∷ run) after = elim (to_boundary run after) [
  | some t ↦ some (c ∷ t)
  | none ↦
      if is_word c && not (begins_word (run ++ after))
        || not (is_word c) && begins_word (run ++ after)
      then some (c ∷ [])
      else none
]

with_head : Text → Option Text → Option Text
with_head head none = none
with_head head (some t) = some (head ++ b'.' ∷ t)

after_dot : Text → Text → Option Text
unfolding take_while drop_while is_dotted to_boundary with_head
after_dot head [] = none
after_dot head (c ∷ s) =
    if c == b'.'
    then with_head head (to_boundary (take_while is_dotted s) (drop_while is_dotted s))
    else none

-- [a-z_][a-z0-9_]*\.[a-z0-9_\.]+\b
dotted_path : Text → Option Text
unfolding take_while drop_while is_snake is_lower after_dot
dotted_path [] = none
dotted_path (c ∷ s) =
    if is_lower c || c == b'_'
    then after_dot (c ∷ take_while is_snake s) (drop_while is_snake s)
    else none

-- Is the run a row of parts that are not empty, with single underscores between them? The flag says
-- whether an underscore has been met.
has_parts : Bool → Text → Bool
has_parts seen [] = false
has_parts seen (c ∷ []) = seen && not (c == b'_')
has_parts seen (c ∷ d ∷ s) =
    if c == b'_' then not (d == b'_') && has_parts true (d ∷ s) else has_parts seen (d ∷ s)

-- [a-z][a-z0-9]*(?:_[a-z0-9]+)+\b: no shorter match ends at a \b, since the run is of word characters.
snake_case : Text → Option Text
unfolding take_while drop_while is_snake is_lower has_parts begins_word
snake_case [] = none
snake_case (c ∷ s) =
    let run = c ∷ take_while is_snake s in
    if is_lower c && (has_parts false run && not (begins_word (drop_while is_snake s)))
    then some run
    else none

or_match : Option Text → Option Text → Option Text
or_match none other = other
or_match (some t) other = some t

-- _IDENTIFIER_RE at the start of the text; `inner` says whether a word character stands in front.
unfoldable pub identifier_at : Bool → Text → Option Text
unfolding camel_case dotted_path snake_case or_match
identifier_at true s = none
identifier_at false s = or_match (camel_case s) (or_match (dotted_path s) (snake_case s))

identifiers_from : Bool → ℕ → Text → List Text
unfolding identifier_at is_word
identifiers_from inner k [] = []
identifiers_from inner (suc k) (c ∷ s) = identifiers_from (is_word c) k s
identifiers_from inner zero (c ∷ s) = elim (identifier_at inner (c ∷ s)) [
  | none ↦ identifiers_from (is_word c) 0 s
  | some t ↦ t ∷ identifiers_from (is_word c) (length t - 1) s
]

is_filler : Text → Bool
unfolding lower mem_text
is_filler t =
    mem_text (lower t) lookup_filler && not (mem_text (lower t) identifier_filler_exceptions)

not_filler : List Text → List Text
unfolding is_filler
not_filler [] = []
not_filler (t ∷ ts) = if is_filler t then not_filler ts else t ∷ not_filler ts

-- The texts stripped, less those that are blank.
unfoldable pub not_blank : List Text → List Text
unfolding strip
not_blank [] = []
not_blank (t ∷ ts) = elim (strip t) [ [] ↦ not_blank ts | ◌∷◌ c s ↦ (c ∷ s) ∷ not_blank ts ]

unfoldable pub rule_based_entities : Text → List Text
unfolding quoted_from not_blank identifiers_from not_filler dedupe
rule_based_entities query =
    dedupe (not_blank (quoted_from 0 query) ++ not_filler (identifiers_from false 0 query))

-- _QUERY_TOKEN_RE: [A-Za-z_][A-Za-z0-9_]*
query_tokens : ℕ → Text → List Text
unfolding take_while is_word is_digit
query_tokens k [] = []
query_tokens (suc k) (c ∷ s) = query_tokens k s
query_tokens zero (c ∷ s) = elim (is_word c && not (is_digit c)) [
  | true ↦ (c ∷ take_while is_word s) ∷ query_tokens (length (take_while is_word s)) s
  | false ↦ query_tokens 0 s
]

is_residue : List Text → Text → Bool
unfolding lower mem_text
is_residue known token =
    not (
      leb (length token) 1
      || (mem_text (lower token) lookup_filler || mem_text (lower token) known))

any_residue : List Text → List Text → Bool
unfolding is_residue
any_residue known [] = false
any_residue known (t ∷ ts) = is_residue known t || any_residue known ts

unfoldable pub has_conceptual_residue : Text → List Text → Bool
unfolding any_residue query_tokens lower
has_conceptual_residue query identifiers =
    any_residue (map lower identifiers) (query_tokens 0 query)

-- _CODEBASE_GROUNDING_RE
abbrev grounding_words : List Text
grounding_words =
    codes "example"
    ∷ codes "examples"
    ∷ codes "implementation"
    ∷ codes "implemented"
    ∷ codes "codebase"
    ∷ codes "source"
    ∷ codes "snippet"
    ∷ []

unfoldable pub wants_codebase_grounding : Text → Bool
unfolding has_any lower
wants_codebase_grounding query = has_any grounding_words (lower query)

-- _REFERRING_RE
abbrev referring_words : List Text
referring_words =
    codes "it"
    ∷ codes "its"
    ∷ codes "this"
    ∷ codes "that"
    ∷ codes "these"
    ∷ codes "those"
    ∷ codes "them"
    ∷ codes "they"
    ∷ codes "their"
    ∷ []

unfoldable pub has_referring_expression : Text → Bool
unfolding has_any_word lower
has_referring_expression query = has_any_word referring_words (lower query)

unfoldable pub is_empty : List Text → Bool
is_empty [] = true
is_empty (t ∷ ts) = false

search_terms : Text → Text → List Text → List Text
unfolding is_empty wants_codebase_grounding has_conceptual_residue dedupe
search_terms query [] identifiers = identifiers
search_terms query (c ∷ s) identifiers =
    if is_empty identifiers
      || (wants_codebase_grounding query || has_conceptual_residue (c ∷ s) identifiers)
    then dedupe (identifiers ++ (c ∷ s) ∷ [])
    else identifiers

-- `entities` is [] where the source has None.
unfoldable pub retrieval_search_terms : Text → List Text → List Text
unfolding search_terms not_blank rule_based_entities dedupe strip
retrieval_search_terms query entities =
    search_terms query (strip query) (dedupe (not_blank entities ++ rule_based_entities query))
