-- ===== src/Querying/Service/Examples.antt =====
-- A graph that answers every query with the same two rows, and one with many rows.
use repo_agent.Prelude.{ℕ, zero, suc, String, ◌≡◌, refl, true, none, some, List, [], ◌∷◌, ◌++◌}
use repo_agent.Prelude.Int.{ℤ, pos}
use repo_agent.Prelude.Json.{Json, null, number, str, Fields, end, field, dict}
use repo_agent.Prelude.Text.{codes, is_word}
use repo_agent.Prelude.Words.{Text, strip}
use repo_agent.Querying.Service.{
  QueryResult, Client, execute, get_dependencies, get_dependencies_count, neighbors_of,
}
use repo_agent.Querying.Service.Search.{
  Searcher, Vectors, no_hits, hits_of, looked_up, retrieve, type_param,
}
use repo_agent.Querying.Hits.{merge_hits}
use repo_agent.Querying.Ranking.{exact}
use repo_agent.Querying.Service.Ranks.{IsRanked, retrieve-IsRanked, looked_up-skips_concepts}
use repo_agent.Querying.Service.Totals.{IsCounted, neighbors_of-IsCounted}
use repo_agent.Querying.Lucene.{is_identifier}

abbrev text_of : Json → Text
text_of (str t) = t
text_of v = []

abbrev number_of : Json → ℤ
number_of (number n) = n
number_of v = pos 0

abbrev row : String → String → Fields
row name path = field "name" (str (codes name)) (field "file_path" (str (codes path)) end)

abbrev two_rows : List Fields
two_rows = row "b" "tests/b.py" ∷ row "a" "a.py" ∷ []

-- The rows over and over again.
abbrev many : ℕ → List Fields → List Fields
many zero rows = []
many (suc n) rows = rows ++ many n rows

abbrev client : List Fields → Client
client rows = record {
  str_of = text_of;
  int_of = number_of;
  template = λ q. codes "MATCH (n) RETURN n";
  run_read = λ cypher params. some rows;
}

abbrev searcher : List Fields → Searcher
searcher rows = record { client = client rows; score_of = number_of; one = pos 1 }

abbrev vectors : Vectors
vectors = record { enabled = true; comparable = true; embed = λ t. some none; min_score = null }

retrieve-IsRanked_example :
    IsRanked (retrieve (searcher two_rows) vectors none (pos 10) (codes "what is b"))
retrieve-IsRanked_example =
    retrieve-IsRanked (searcher two_rows) vectors none (pos 10) (codes "what is b")

neighbors_of-IsCounted_example :
    IsCounted (neighbors_of (client two_rows) get_dependencies get_dependencies_count (codes "a"))
neighbors_of-IsCounted_example =
    neighbors_of-IsCounted (client two_rows) get_dependencies get_dependencies_count (codes "a")

abbrev full : List Fields
full = many 100 two_rows

abbrev full_result : QueryResult
full_result = record {
  cypher_executed = codes "MATCH (n) RETURN n LIMIT 200";
  params = dict (("name", str (codes "request lifecycle")) ∷ ("entity_type", null) ∷ []);
  rows = full;
  result_count = 200;
  truncated = true;
}

looked_up-skips_concepts_example :
    looked_up (searcher full) none (codes "request lifecycle")
    ≡ some (merge_hits (hits_of (searcher full) exact full) no_hits, true)
unfolding execute is_word type_param is_identifier strip
looked_up-skips_concepts_example =
    looked_up-skips_concepts (searcher full) none (codes "request lifecycle") full_result refl refl
      refl
