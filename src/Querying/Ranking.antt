-- ===== src/Querying/Ranking.antt =====
-- core/src/core/querying/service.py: how hits are ranked, and the names that a question stands for.
-- None and "" rank alike and are both the empty text. A score is a whole number of a fixed unit.
use repo_agent.Prelude.{
  ℕ, ◌≡◌, refl, Bool, true, false, not, ◌&&◌, ◌||◌, List, [], ◌∷◌, ◌++◌, map, arith, ltb, leb, ◌==◌,
  if◌then◌else◌,
}
use repo_agent.Prelude.Int.{ℤ, pos, negsuc}
use repo_agent.Prelude.Text.{codes, starts_with, is_lower, is_digit}
use repo_agent.Prelude.Words.{Text, lower, strip, has_text, same_text, mem_text, has_any, is_text}

pub data Tier : Type 0 where
  exact : Tier
  fulltext : Tier
  lexical : Tier

unfoldable pub tier_rank : Tier → ℕ
tier_rank exact = 0
tier_rank fulltext = 1
tier_rank lexical = 2

-- path.replace("\\", "/")
unfoldable pub slashes : Text → Text
slashes s = map (λ c. if c == 92 then b'/' else c) s

-- path.lstrip("./")
unfoldable pub lstrip_dots : Text → Text
lstrip_dots [] = []
lstrip_dots (c ∷ s) = if c == b'.' || c == b'/' then lstrip_dots s else c ∷ s

unfoldable pub normalized_path : Text → Text
unfolding slashes lstrip_dots
normalized_path path = lstrip_dots (slashes path)

unfoldable pub source_priority : Text → ℕ
unfolding normalized_path starts_with has_text
source_priority path =
    let p = normalized_path path in
    if starts_with (codes "tests/") p || has_text (codes "/tests/") p
    then 2
    else if starts_with (codes "docs_src/") p || has_text (codes "/docs_src/") p
    then 1
    else 0

unfoldable pub package_local_priority : Text → Text → ℕ
unfolding normalized_path starts_with lower
package_local_priority qualified_name path =
    if starts_with (codes "fastapi/") (lower (normalized_path path))
      || starts_with (codes "fastapi.") (lower qualified_name)
    then 0
    else 1

-- text.rsplit(sep, 1)[-1]
unfoldable pub last_part : ℕ → Text → Text
last_part sep [] = []
last_part sep (c ∷ s) =
    let rest = last_part sep s in
    if c == sep then rest else if has_text (sep ∷ []) s then rest else c ∷ s

-- text.rsplit(sep, 1)[0]
unfoldable pub first_parts : ℕ → Text → Text
first_parts sep [] = []
first_parts sep (c ∷ s) =
    let rest = first_parts sep s in
    if has_text (sep ∷ []) s then c ∷ rest else if c == sep then [] else c ∷ rest

-- re.sub(r"[^a-z0-9]", "", text)
unfoldable pub compact : Text → Text
unfolding is_lower is_digit
compact [] = []
compact (c ∷ s) = let rest = compact s in if is_lower c || is_digit c then c ∷ rest else rest

is_root_of_s : ℕ → Text → Text
is_root_of_s c [] = if c == b's' then [] else c ∷ []
is_root_of_s c (d ∷ t) = c ∷ d ∷ t

-- text.rstrip("s")
unfoldable pub root : Text → Text
unfolding is_root_of_s
root [] = []
root (c ∷ s) = is_root_of_s c (root s)

-- needle and needle in text
found_in : Text → Text → Bool
unfolding is_text has_text
found_in needle text = is_text needle && has_text needle text

unfoldable pub stem_of : Text → Text
unfolding compact lower first_parts last_part slashes has_text
stem_of path =
    let file = last_part b'/' (slashes path) in
    compact (lower (if has_text (codes ".") file then first_parts b'.' file else file))

-- A compact stem against a compact name.
unfoldable pub stem_affinity : Text → Text → ℕ
unfolding is_text same_text root found_in
stem_affinity stem needle =
    if not (is_text stem) || (same_text stem (codes "init") || not (is_text needle))
    then 2
    else if same_text (root stem) (root needle)
        || same_text stem needle
        || (found_in (root stem) needle || found_in (root needle) stem)
    then 0
    else 1

unfoldable pub path_name_affinity : Text → Text → ℕ
unfolding is_text stem_of stem_affinity compact lower
path_name_affinity name path =
    if is_text name && is_text path then stem_affinity (stem_of path) (compact (lower name)) else 2

-- a >= b
unfoldable pub at_least : ℤ → ℤ → Bool
at_least (pos a) (pos b) = leb b a
at_least (pos a) (negsuc b) = true
at_least (negsuc a) (pos b) = false
at_least (negsuc a) (negsuc b) = leb a b

pub at_least-total : (a b : ℤ) → (at_least a b || at_least b a) ≡ true
unfolding at_least
at_least-total (pos a) (pos b) = ground arith
at_least-total (pos a) (negsuc b) = refl
at_least-total (negsuc a) (pos b) = refl
at_least-total (negsuc a) (negsuc b) = ground arith

-- The order of tuples; `last` compares the entries behind.
unfoldable pub tuple_le : List ℕ → List ℕ → Bool → Bool
tuple_le [] [] last = last
tuple_le [] (y ∷ ys) last = true
tuple_le (x ∷ xs) [] last = false
tuple_le (x ∷ xs) (y ∷ ys) last = ltb x y || (x == y && tuple_le xs ys last)

pub data SortKey : Type 0 where
  sort_key : List ℕ → ℤ → SortKey

unfoldable pub retrieval_sort_key : Tier → Text → ℤ → Text → Text → SortKey
unfolding tier_rank source_priority package_local_priority path_name_affinity
retrieval_sort_key tier path score name qualified_name =
    sort_key
      (tier_rank tier
        ∷ source_priority path
        ∷ package_local_priority qualified_name path
        ∷ path_name_affinity name path
        ∷ [])
      score

-- The tuples compared, the higher score first.
unfoldable pub key_le : SortKey → SortKey → Bool
unfolding tuple_le at_least
key_le (sort_key xs a) (sort_key ys b) = tuple_le xs ys (at_least a b)

-- _CONCEPT_ENTITIES
pub record ConceptEntry : Type 0 where
  pub all_of : List Text
  pub any_of : List Text
  pub entities : List Text

abbrev pub concept_entities : List ConceptEntry
concept_entities =
    record {
      all_of = codes "dependenc" ∷ [];
      any_of =
          codes "injection"
          ∷ codes "resolution"
          ∷ codes "inject"
          ∷ codes "injecting"
          ∷ codes "resolving"
          ∷ [];
      entities = codes "Depends" ∷ codes "get_dependant" ∷ codes "solve_dependencies" ∷ [];
    }
    ∷ record {
      all_of = codes "request" ∷ codes "lifecycle" ∷ [];
      any_of = [];
      entities =
          codes "APIRoute.get_request_handler"
          ∷ codes "run_endpoint_function"
          ∷ codes "serialize_response"
          ∷ [];
    }
    ∷ record {
      all_of = codes "request" ∷ codes "validation" ∷ [];
      any_of = [];
      entities =
          codes "request_params_to_args"
          ∷ codes "request_body_to_args"
          ∷ codes "RequestValidationError"
          ∷ [];
    }
    ∷ []

has_all : List Text → Text → Bool
unfolding has_text
has_all [] s = true
has_all (w ∷ ws) s = has_text w s && has_all ws s

-- No alternatives, or one of them.
any_or_none : List Text → Text → Bool
unfolding has_any
any_or_none [] s = true
any_or_none (w ∷ ws) s = has_any (w ∷ ws) s

-- The entities whose lower-case name is new, with the names seen.
new_names : List Text → List Text → List Text → List Text × List Text
unfolding mem_text lower
new_names [] seen extra = (seen, extra)
new_names (n ∷ ns) seen extra =
    if mem_text (lower n) seen
    then new_names ns seen extra
    else new_names ns (seen ++ lower n ∷ []) (extra ++ n ∷ [])

names_from : List ConceptEntry → Text → List Text × List Text → List Text
unfolding has_all any_or_none new_names
names_from [] lowered (seen, extra) = extra
names_from (c ∷ cs) lowered (seen, extra) = names_from cs lowered (
    if has_all c.all_of lowered && any_or_none c.any_of lowered
    then new_names c.entities seen extra
    else (seen, extra))

unfoldable pub conceptual_entity_names : Text → List Text
unfolding names_from lower strip
conceptual_entity_names query =
    names_from concept_entities (lower query) (lower (strip query) ∷ [], [])
