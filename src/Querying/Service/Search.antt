-- ===== src/Querying/Service/Search.antt =====
-- core/src/core/querying/service.py, retrieve of GraphQueryService: exact names, then full text, then
-- vectors. The hits of the vector search are merged as they are: reading them from their own fields
-- again gives them back.
use repo_agent.Prelude.{
  Bool, true, false, ◌||◌, Option, none, some, List, [], ◌∷◌, map, leb, if◌then◌else◌, take,
}
use repo_agent.Prelude.Int.{ℤ, pos, clamp, clamp_one}
use repo_agent.Prelude.Json.{Json, null, number, str, Fields, dict}
use repo_agent.Prelude.Text.{codes}
use repo_agent.Prelude.Words.{Text, mem_text, same_text, strip, is_text}
use repo_agent.Prelude.Sort.{sort}
use repo_agent.Querying.Ranking.{
  Tier, exact, fulltext, lexical, at_least, key_le, conceptual_entity_names,
}
use repo_agent.Querying.Lucene.{is_identifier, lucene_query}
use repo_agent.Querying.Hits.{EntityHit, entity_hit, hit_sort_key, Ranked, merge_hits}
use repo_agent.Querying.Service.{
  find_entity, find_imported_name, find_fulltext, vector_search, QueryResult, Client, execute,
}

-- The entity type as a parameter.
unfoldable pub type_param : Option Text → Json
type_param none = null
type_param (some t) = str t

-- The client with float() of a score, and 1.0 in the unit of the scores.
pub record Searcher : Type 0 where
  pub client : Client
  pub score_of : Json → ℤ
  pub one : ℤ

unfoldable pub hits_of : Searcher → Tier → List Fields → List EntityHit
unfolding entity_hit
hits_of s tier rows = map (entity_hit s.client.str_of s.client.int_of s.score_of s.one tier) rows

-- The rows merged, or the exception.
unfoldable pub merged_rows : Searcher → Tier → Option QueryResult → Ranked → Option (Ranked × Bool)
unfolding merge_hits hits_of
merged_rows s tier none r = none
merged_rows s tier (some found) r = some (merge_hits (hits_of s tier found.rows) r, found.truncated)

-- truncated or more
unfoldable pub also_truncated : Bool → Option (Ranked × Bool) → Option (Ranked × Bool)
also_truncated truncated none = none
also_truncated truncated (some (r, more)) = some (r, truncated || more)

-- The second query of an identifier.
unfoldable pub then_imported :
    Searcher → Option Text → Text → Option (Ranked × Bool) → Option (Ranked × Bool)
unfolding also_truncated merged_rows execute dict type_param is_identifier strip
then_imported s kind name none = none
then_imported s kind name (some (r, truncated)) =
    let query =
      execute s.client find_imported_name
        (dict (("name", str name) ∷ ("entity_type", type_param kind) ∷ [])) in
    if is_identifier (strip name)
    then also_truncated truncated (merged_rows s exact query r)
    else some (r, truncated)

unfoldable pub merge_identifier_hits :
    Searcher → Option Text → Text → Ranked → Option (Ranked × Bool)
unfolding then_imported merged_rows execute dict type_param
merge_identifier_hits s kind name r = then_imported s kind name (
    merged_rows s exact
      (execute s.client find_entity
        (dict (("name", str name) ∷ ("entity_type", type_param kind) ∷ [])))
      r)

-- `truncated or self._merge_identifier_hits(...)`: the call is made only while nothing is truncated.
unfoldable pub merge_unless : Searcher → Option Text → Text → Ranked × Bool → Option (Ranked × Bool)
unfolding merge_identifier_hits
merge_unless s kind name (r, true) = some (r, true)
merge_unless s kind name (r, false) = merge_identifier_hits s kind name r

unfoldable pub merge_all :
    Searcher → Option Text → List Text → Option (Ranked × Bool) → Option (Ranked × Bool)
unfolding merge_unless
merge_all s kind names none = none
merge_all s kind [] (some state) = some state
merge_all s kind (n ∷ ns) (some state) = merge_all s kind ns (merge_unless s kind n state)

-- An exception of the full text is logged only.
unfoldable pub with_fulltext : Searcher → ℤ → Option QueryResult → Ranked × Bool → Ranked × Bool
unfolding merge_hits hits_of
with_fulltext s top_k none state = state
with_fulltext s top_k (some found) (r, truncated) = (
  merge_hits (hits_of s fulltext found.rows) r,
  truncated || (found.truncated || leb (clamp top_k) found.result_count),
)

unfoldable pub fulltext_found : Searcher → Option Text → ℤ → Text → Option QueryResult
unfolding execute dict type_param
fulltext_found s kind top_k lucene = execute s.client find_fulltext (
    dict (
      ("index_name", str (codes "code_search"))
      ∷ ("lucene_query", str lucene)
      ∷ ("entity_type", type_param kind)
      ∷ ("top_k", number (pos (clamp_one top_k)))
      ∷ []))

unfoldable pub add_fulltext : Searcher → Option Text → ℤ → Text → Ranked × Bool → Ranked × Bool
unfolding with_fulltext fulltext_found is_text
add_fulltext s kind top_k lucene state =
    if is_text lucene
    then with_fulltext s top_k (fulltext_found s kind top_k lucene) state
    else state

-- The tier of vectors: whether it is enabled with a provider, whether the vectors of the graph are
-- comparable, what embed gives (None when it raises, and then None for a vector of zeros or none), and
-- the floor of the scores.
pub record Vectors : Type 0 where
  pub enabled : Bool
  pub comparable : Bool
  pub embed : Text → Option (Option Json)
  pub min_score : Json

-- VECTOR_INDEX_NAMES
abbrev pub vector_index_names : List (Text × Text)
vector_index_names =
    (codes "Function", codes "function_embeddings")
    ∷ (codes "Method", codes "method_embeddings")
    ∷ (codes "Class", codes "class_embeddings")
    ∷ []

-- The indexes of an entity type, or all of them when it has none.
index_names : Option Text → List (Text × Text) → List Text
unfolding same_text
index_names none [] = []
index_names none ((label, name) ∷ rest) = name ∷ index_names none rest
index_names (some t) [] = map (λ e. e.1) vector_index_names
index_names (some t) ((label, name) ∷ rest) =
    let others = index_names (some t) rest in if same_text label t then name ∷ [] else others

-- A failed query is logged and skipped.
rows_or_none : Option QueryResult → List Fields
rows_or_none none = []
rows_or_none (some found) = found.rows

unfoldable pub vector_hits : Searcher → Option Text → ℤ → Json → Json → List Text → Ranked → Ranked
unfolding merge_hits hits_of rows_or_none execute dict type_param
vector_hits s kind top_k vector min_score [] r = r
vector_hits s kind top_k vector min_score (index ∷ rest) r =
    vector_hits s kind top_k vector min_score rest (
      merge_hits
        (hits_of s lexical (
          rows_or_none (
            execute s.client vector_search (
              dict (
                ("index_name", str index)
                ∷ ("top_k", number (pos (clamp_one top_k)))
                ∷ ("query_vector", vector)
                ∷ ("entity_type", type_param kind)
                ∷ ("min_score", min_score)
                ∷ [])))))
        r)

abbrev pub no_hits : Ranked
no_hits = record { hits = []; seen = [] }

unfoldable pub embedding_search : Searcher → Vectors → Option Text → ℤ → Text → List EntityHit
unfolding vector_hits index_names sort at_least
embedding_search s v kind top_k query = elim (v.embed query) [
  | none ↦ []
  | some none ↦ []
  | some (some vector) ↦
      if v.comparable
      then take (clamp_one top_k) (
          sort (λ a b. at_least a.score b.score)
            (vector_hits s kind top_k vector v.min_score (index_names kind vector_index_names)
              no_hits).hits)
      else []
]

unfoldable pub add_vectors :
    Searcher → Vectors → Option Text → ℤ → Text → Ranked × Bool → Ranked × Bool
unfolding merge_hits embedding_search
add_vectors s v kind top_k query (r, truncated) =
    (if v.enabled then merge_hits (embedding_search s v kind top_k query) r else r, truncated)

-- An unknown entity type, an exception of the lookup of a name, or the matches and their truncation.
pub data EntityQueryResult : Type 0 where
  invalid_entity_type : EntityQueryResult
  lookup_failed : EntityQueryResult
  matches : List EntityHit → Bool → EntityQueryResult

abbrev pub find_entity_labels : List Text
find_entity_labels =
    codes "Module" ∷ codes "Class" ∷ codes "Function" ∷ codes "Method" ∷ codes "File" ∷ []

is_valid_type : Option Text → Bool
unfolding mem_text
is_valid_type none = true
is_valid_type (some t) = mem_text t find_entity_labels

-- The names that are looked up: the query and what it stands for.
unfoldable pub looked_up : Searcher → Option Text → Text → Option (Ranked × Bool)
unfolding merge_all conceptual_entity_names
looked_up s kind query =
    merge_all s kind (query ∷ conceptual_entity_names query) (some (no_hits, false))

unfoldable pub gathered :
    Searcher → Vectors → Option Text → ℤ → Text → Ranked × Bool → Ranked × Bool
unfolding add_vectors add_fulltext lucene_query
gathered s v kind top_k query state =
    add_vectors s v kind top_k query (add_fulltext s kind top_k (lucene_query query) state)

unfoldable pub hit_le : EntityHit → EntityHit → Bool
unfolding key_le hit_sort_key
hit_le a b = key_le (hit_sort_key a) (hit_sort_key b)

unfoldable pub finished : Ranked × Bool → EntityQueryResult
unfolding sort hit_le
finished (r, truncated) = matches (sort hit_le r.hits) truncated

unfoldable pub retrieve_from :
    Searcher → Vectors → Option Text → ℤ → Text → Option (Ranked × Bool) → EntityQueryResult
unfolding finished gathered
retrieve_from s v kind top_k query none = lookup_failed
retrieve_from s v kind top_k query (some state) = finished (gathered s v kind top_k query state)

unfoldable pub retrieve : Searcher → Vectors → Option Text → ℤ → Text → EntityQueryResult
unfolding is_valid_type looked_up retrieve_from
retrieve s v kind top_k query =
    if is_valid_type kind
    then retrieve_from s v kind top_k query (looked_up s kind query)
    else invalid_entity_type
