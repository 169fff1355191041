-- ===== src/Querying/Service.antt =====
-- core/src/core/querying/service.py, GraphQueryService. What `run_read` of the client gives for a Cypher
-- text is an argument, None when it raises, and so are the texts of templates.py, which are in the
-- language of the database, and the calls of the embedding provider.
pub mod Search
pub mod Ranks
pub mod Totals
mod Examples
use repo_agent.Prelude.{
  ℕ, min, max, Bool, ◌&&◌, ◌||◌, Option, none, some, List, [], ◌∷◌, map, ltb, leb, if◌then◌else◌,
  length,
}
use repo_agent.Prelude.Int.{ℤ, pos, clamp, clamp_one}
use repo_agent.Prelude.Json.{Json, null, number, str, Fields, get_field, dict}
use repo_agent.Prelude.Text.{codes}
use repo_agent.Prelude.Words.{Text, mem_text}
use repo_agent.Querying.Safety.{Guarded, accepted, rejected, guard_readonly, ensure_limit}
use repo_agent.Prelude.Sort.{sort}
use repo_agent.Querying.Ranking.{exact, key_le, retrieval_sort_key}
use repo_agent.Querying.Hits.{
  DocstringHit, docstring_hit, NeighborHit, neighbor_hit, unique_hops, str_list, opt_str,
}

-- The Cypher texts of templates.py that the service runs.
pub data Query : Type 0 where
  find_entity : Query
  find_imported_name : Query
  find_fulltext : Query
  vector_search : Query
  get_dependencies : Query
  get_dependencies_count : Query
  get_dependents : Query
  get_dependents_count : Query
  trace_imports : Query
  find_related : Query
  get_docstring : Query

pub record QueryResult : Type 0 where
  pub cypher_executed : Text
  pub params : Fields
  pub rows : List Fields
  pub result_count : ℕ
  pub truncated : Bool

-- The rows of a query that ran, with what was executed.
unfoldable pub result_of : Text × Bool → Fields → Option (List Fields) → Option QueryResult
result_of (limited, applied) params none = none
result_of (limited, applied) params (some rows) = some (record {
  cypher_executed = limited;
  params = params;
  rows = rows;
  result_count = length rows;
  truncated = applied && leb 200 (length rows);
})

run_guarded : (Text → Fields → Option (List Fields)) → Guarded → Fields → Option QueryResult
unfolding result_of ensure_limit
run_guarded run_read (rejected clause) params = none
run_guarded run_read (accepted cypher) params =
    let (limited, applied) = ensure_limit cypher in
    result_of (limited, applied) params (run_read limited params)

-- None when the guard or the client raises.
unfoldable pub execute_query :
    (Text → Fields → Option (List Fields)) → Text → Fields → Option QueryResult
unfolding run_guarded guard_readonly
execute_query run_read cypher params = run_guarded run_read (guard_readonly cypher) params

-- What the methods use of the service: str() and int() of a value, and a query with its parameters.
pub record Client : Type 0 where
  pub str_of : Json → Text
  pub int_of : Json → ℤ
  pub template : Query → Text
  pub run_read : Text → Fields → Option (List Fields)

unfoldable pub execute : Client → Query → Fields → Option QueryResult
unfolding execute_query
execute c q params = execute_query c.run_read (c.template q) params

pub record NeighborQueryResult : Type 0 where
  pub name : Text
  pub neighbors : List NeighborHit
  pub result_count : ℕ
  pub truncated : Bool
  pub total_count : ℕ
  pub hops : List Text

-- max(fallback, int(total)) for the first row, if it has a total.
unfoldable pub total_in : (Json → ℤ) → Json → ℕ → ℕ
total_in int_of null fallback = fallback
total_in int_of (str []) fallback = fallback
total_in int_of v fallback = max fallback (clamp (int_of v))

unfoldable pub neighbor_total : (Json → ℤ) → List Fields → ℕ → ℕ
unfolding total_in get_field
neighbor_total int_of [] fallback = fallback
neighbor_total int_of (row ∷ rows) fallback = total_in int_of (get_field "total" row) fallback

unfoldable pub neighbors_with :
    Client → Text → QueryResult → Option QueryResult → Option NeighborQueryResult
unfolding neighbor_hit neighbor_total unique_hops
neighbors_with c name found none = none
neighbors_with c name found (some counted) =
    let neighbors = map (neighbor_hit c.str_of) found.rows in
    let total = neighbor_total c.int_of counted.rows (length neighbors) in
    some (record {
      name = name;
      neighbors = neighbors;
      result_count = length neighbors;
      truncated = ltb (length neighbors) total || found.truncated;
      total_count = total;
      hops = unique_hops neighbors [];
    })

-- The second query is run when the first has given its rows.
unfoldable pub counted_neighbors :
    Client → Text → Option QueryResult → Option QueryResult → Option NeighborQueryResult
unfolding neighbors_with
counted_neighbors c name none counted = none
counted_neighbors c name (some found) counted = neighbors_with c name found counted

-- get_dependencies and get_dependents: the query of the neighbors and then the one that counts them.
unfoldable pub neighbors_of : Client → Query → Query → Text → Option NeighborQueryResult
unfolding execute dict counted_neighbors
neighbors_of c q count name =
    counted_neighbors c name
      (execute c q (dict (("name", str name) ∷ ("branch_limit", number (pos 20)) ∷ [])))
      (execute c count (dict (("name", str name) ∷ [])))

unfoldable pub dependencies_of : Client → Text → Option NeighborQueryResult
unfolding neighbors_of
dependencies_of c name = neighbors_of c get_dependencies get_dependencies_count name

unfoldable pub dependents_of : Client → Text → Option NeighborQueryResult
unfolding neighbors_of
dependents_of c name = neighbors_of c get_dependents get_dependents_count name

pub record ImportTraceResult : Type 0 where
  pub module_name : Text
  pub paths : List (List Text)
  pub depth : ℕ
  pub result_count : ℕ
  pub truncated : Bool
  pub hop : Option Text

-- max(1, min(depth, 5))
unfoldable pub capped_depth : ℤ → ℕ
capped_depth depth = min (clamp_one depth) 5

first_hop : (Json → Text) → List Fields → Option Text
unfolding opt_str get_field
first_hop str_of [] = none
first_hop str_of (row ∷ rows) = opt_str str_of (get_field "hop" row)

unfoldable pub trace_of : Client → Text → ℤ → Option ImportTraceResult
unfolding execute dict capped_depth str_list first_hop get_field
trace_of c name depth =
    elim (execute c trace_imports
      (dict (("module", str name) ∷ ("depth", number (pos (capped_depth depth))) ∷ []))) [
        | none ↦ none
        | some found ↦ some (record {
          module_name = name;
          paths = map (λ row. str_list c.str_of (get_field "nodes" row)) found.rows;
          depth = capped_depth depth;
          result_count = found.result_count;
          truncated = found.truncated;
          hop = first_hop c.str_of found.rows;
        })
      ]

abbrev pub relationship_types : List Text
relationship_types =
    codes "CONTAINS"
    ∷ codes "IMPORTS"
    ∷ codes "INHERITS_FROM"
    ∷ codes "CALLS"
    ∷ codes "DECORATED_BY"
    ∷ codes "HAS_PARAMETER"
    ∷ codes "DOCUMENTED_BY"
    ∷ codes "DEPENDS_ON"
    ∷ []

-- An unknown type, the error of the client, or the neighbors with their truncation.
pub data RelatedQueryResult : Type 0 where
  invalid_type : RelatedQueryResult
  query_failed : RelatedQueryResult
  related : List NeighborHit → ℕ → Bool → RelatedQueryResult

unfoldable pub related_to : Client → Text → Text → RelatedQueryResult
unfolding execute dict neighbor_hit mem_text
related_to c name type =
    if mem_text type relationship_types
    then elim (execute c find_related
        (dict (("name", str name) ∷ ("relationship_type", str type) ∷ []))) [
          | none ↦ query_failed
          | some found ↦
              related (map (neighbor_hit c.str_of) found.rows) found.result_count found.truncated
        ]
    else invalid_type

-- The order of the docstrings of one name: all of them are exact and score `one`, which is 1.0.
unfoldable pub docstring_le : ℤ → DocstringHit → DocstringHit → Bool
unfolding key_le retrieval_sort_key
docstring_le one a b =
    key_le (retrieval_sort_key exact a.file_path one a.name a.qualified_name)
      (retrieval_sort_key exact b.file_path one b.name b.qualified_name)

-- The docstrings and whether they are truncated, or None for an exception.
unfoldable pub docstrings_of : Client → ℤ → Text → Option (List DocstringHit × Bool)
unfolding execute dict docstring_hit docstring_le sort
docstrings_of c one name =
    elim (execute c get_docstring (dict (("qualified_name", str name) ∷ []))) [
      | none ↦ none
      | some found ↦ some (
        sort (docstring_le one) (map (docstring_hit c.str_of c.int_of) found.rows),
        found.truncated,
      )
    ]
