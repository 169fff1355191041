-- ===== src/Orchestration/Executor/Run/Examples.antt =====
-- A graph that knows one name.
use repo_agent.Prelude.{refl, none, some, [], ◌∷◌}
use repo_agent.Prelude.Int.{pos}
use repo_agent.Prelude.Json.{Json, str, object, end, field}
use repo_agent.Prelude.Text.{codes, is_word}
use repo_agent.Prelude.Words.{Text}
use repo_agent.Orchestration.Models.{graph_query, llm, relationship_kind, ExecutionPlan}
use repo_agent.Orchestration.Evidence.Assess.{is_out_of_scope}
use repo_agent.Orchestration.Executor.Candidates.{candidate_limit}
use repo_agent.Orchestration.Executor.Graph.{gave, timed_out, World}
use repo_agent.Orchestration.Executor.Run.{run_graph}
use repo_agent.Orchestration.Executor.Run.Scope.{
  AreSelected, OnlyFinds, run_graph-AreSelected, run_graph-OnlyFinds,
}

abbrev text_of : Json → Text
text_of (str t) = t
text_of v = []

abbrev found : Json
found =
    object
      (field "qualified_name" (str (codes "app.Router")) (field "tier" (str (codes "exact")) end))

abbrev world : World
world = record {
  str_of = text_of;
  score_of = λ v. pos 0;
  call = λ c. gave found;
  first_failure = λ es. timed_out;
}

abbrev plan : ExecutionPlan
plan = record {
  routing_mode = llm;
  intent = record {
    routing_mode = llm;
    intent = relationship_kind;
    entities = codes "Router" ∷ [];
    target_agents = graph_query ∷ [];
    reasoning = [];
  };
  agents = graph_query ∷ [];
  search_terms = some (codes "Router" ∷ codes "Route" ∷ []);
  iteration = 1;
  refinement_reason = "";
  retry_tools = none;
}

run_graph-AreSelected_example :
    AreSelected world
      (candidate_limit 1)
      (run_graph world plan (codes "who calls Router")).analysis_candidates
run_graph-AreSelected_example = run_graph-AreSelected world plan (codes "who calls Router")

run_graph-OnlyFinds_example : OnlyFinds (run_graph world plan (codes "django views"))
unfolding is_out_of_scope is_word
run_graph-OnlyFinds_example = run_graph-OnlyFinds world plan (codes "django views") refl
