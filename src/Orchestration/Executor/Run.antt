-- ===== src/Orchestration/Executor/Run.antt =====
-- core/src/core/orchestration/executor.py, _run_graph of run_plan, and what run_plan makes of its output
-- at the end.
pub mod Scope
mod Examples
use repo_agent.Prelude.{
  ℕ, String, Bool, true, false, not, ◌&&◌, Option, none, some, List, [], ◌∷◌, ◌++◌, map, str_eq,
  if◌then◌else◌,
}
use repo_agent.Prelude.Json.{
  Json, array, object, nil, Fields, end, field, get_field, has_field, text_list, items_of,
}
use repo_agent.Prelude.Words.{Text, same_text, mem_text}
use repo_agent.Orchestration.Models.{graph_query, ExecutionPlan, AgentOutput}
use repo_agent.Orchestration.Router.Names.{retrieval_search_terms}
use repo_agent.Orchestration.Evidence.Assess.{is_out_of_scope}
use repo_agent.Orchestration.Executor.Tools.{
  ToolPlan, tool_plan, find_entity, get_dependencies, get_dependents, trace_imports, find_related,
  related_relationship_type,
}
use repo_agent.Orchestration.Executor.Candidates.{jsonish, primary_hit, candidate_limit}
use repo_agent.Orchestration.Executor.Graph.{
  gave, Call, World, recorded_all, find_calls, ends_of, results_of, GraphRun, hit_list, failed_run,
  failure_of, entities_of, all_hits, candidates_of, relation_names, unique_names, relation_calls,
}

-- The results of the calls of one tool; a failed call is left out.
results_for : World → Text → List Call → List Json
unfolding jsonish same_text
results_for w tool [] = []
results_for w tool (c ∷ cs) =
    let rest = results_for w tool cs in
    elim (w.call c) [
      | gave v ↦ (if same_text c.tool tool then jsonish v ∷ rest else rest)
      | _ ↦ rest
    ]

bucket : World → Text → List Call → Json
unfolding results_for items_of
bucket w tool cs = array (items_of (results_for w tool cs))

-- graph_extra: the buckets, if a relation was asked for.
unfoldable pub extra_of : World → List Call → Fields
unfolding bucket
extra_of w [] = end
extra_of w (c ∷ cs) = field "dependencies" (bucket w get_dependencies (c ∷ cs)) (
    field "dependents" (bucket w get_dependents (c ∷ cs)) (
      field "import_traces" (bucket w trace_imports (c ∷ cs))
        (field "related" (bucket w find_related (c ∷ cs)) end)))

unfoldable pub terms_of : ExecutionPlan → Text → List Text
unfolding retrieval_search_terms
terms_of plan query = elim plan.search_terms [
  | none ↦ retrieval_search_terms query plan.intent.entities
  | some ts ↦ elim ts [ [] ↦ retrieval_search_terms query plan.intent.entities | ◌∷◌ t us ↦ t ∷ us ]
]

unfoldable pub ok_output : Fields → AgentOutput Json
ok_output fs = record {
  ok = true;
  output = some (object fs);
  error = none;
  degraded_note = none;
  tools_invoked = [];
}

unfoldable pub blank : List Fields → List Fields
blank [] = []
blank (h ∷ hs) = end ∷ blank hs

-- The calls of the relations, which an out-of-scope query has none of.
unfoldable pub relations_for :
    World → ToolPlan → Text → List Text → List Fields → List Fields → List Call
unfolding is_out_of_scope relation_calls unique_names relation_names related_relationship_type
relations_for w tools query terms hits candidates =
    if is_out_of_scope query
    then []
    else relation_calls tools.parallel (related_relationship_type query)
        (unique_names [] (relation_names w terms hits candidates))

-- What is done with the results of find_entity; `made` are the tools recorded so far.
unfoldable pub after_find :
    World → ToolPlan → Text → ℕ → List Text → List Text → List Json → GraphRun
unfolding is_out_of_scope candidates_of candidate_limit entities_of all_hits primary_hit blank
    relations_for extra_of ok_output text_list hit_list items_of recorded_all
after_find w tools query iteration terms made results =
    let found = candidates_of w (candidate_limit iteration) results in
    let candidates = if is_out_of_scope query then [] else found in
    let first_hits = map primary_hit results in
    let hits = if is_out_of_scope query then blank first_hits else first_hits in
    let cs = relations_for w tools query terms hits candidates in
    record {
      status = ok_output (
          field "entities" (array (items_of (entities_of results))) (
            field "queried_entities" (text_list terms) (
              field "candidates" (hit_list (all_hits results))
                (field "analysis_candidates" (hit_list candidates) (extra_of w cs)))));
      available = true;
      entities = entities_of results;
      hits = hits;
      analysis_candidates = candidates;
      extra = extra_of w cs;
      tools = made ++ recorded_all w cs;
    }

-- find_entity for every term, at once.
unfoldable pub find_first : World → ToolPlan → List Text → List Call
unfolding find_calls mem_text
find_first w tools terms = if mem_text find_entity tools.first then find_calls terms else []

unfoldable pub after_gather :
    World → ToolPlan → Text → ℕ → List Text → List Call → Option (List Json) → GraphRun
unfolding after_find failure_of recorded_all ends_of
after_gather w tools query iteration terms cs none =
    failure_of (recorded_all w cs) (w.first_failure (ends_of w cs))
after_gather w tools query iteration terms cs (some results) =
    after_find w tools query iteration terms (recorded_all w cs) results

-- The output when there is no term to look for.
unfoldable pub nothing_to_find : GraphRun
unfolding ok_output
nothing_to_find = record {
  status = ok_output (
      field "entities" (array nil) (
        field "queried_entities" (array nil)
          (field "candidates" (array nil) (field "tools_invoked" (array nil) end))));
  available = true;
  entities = [];
  hits = [];
  analysis_candidates = [];
  extra = end;
  tools = [];
}

unfoldable pub is_nil : List Text → Bool
is_nil [] = true
is_nil (t ∷ ts) = false

unfoldable pub run_tools : World → ToolPlan → Text → ℕ → List Text → GraphRun
unfolding after_gather find_first results_of ends_of nothing_to_find failed_run is_nil mem_text
run_tools w tools query iteration terms =
    if is_nil tools.first && is_nil tools.parallel
    then failed_run [] true "empty_tool_plan" "no tool plan for intent; specialist was not invoked"
    else if mem_text find_entity tools.first && is_nil terms
    then nothing_to_find
    else after_gather w tools query iteration terms (find_first w tools terms)
        (results_of (ends_of w (find_first w tools terms)))

-- _run_graph
unfoldable pub run_graph : World → ExecutionPlan → Text → GraphRun
unfolding run_tools tool_plan terms_of
run_graph w plan query =
    run_tools w (tool_plan plan.intent.intent graph_query query) query plan.iteration
      (terms_of plan query)

-- output.get(k, v)
get_or : String → Json → Fields → Json
unfolding has_field get_field
get_or k v fs = if has_field k fs then get_field k fs else v

without : String → Fields → Fields
without k end = end
without k (field j v fs) = let rest = without k fs in if str_eq j k then rest else field j v rest

fields_in : Option Json → Fields
fields_in (some (object fs)) = fs
fields_in o = end

-- The output of the graph agent that run_plan returns.
unfoldable pub finished_status : ExecutionPlan → GraphRun → AgentOutput Json
unfolding get_or without fields_in items_of text_list
finished_status plan r =
    let fs = fields_in r.status.output in
    if r.available
    then record r.status {
      output = some (
          object (
            field "entities" (array (items_of r.entities)) (
              field "queried_entities"
                (get_or "queried_entities" (text_list plan.intent.entities) fs)
                (without "entities" (without "queried_entities" fs)))));
      tools_invoked = r.tools;
    }
    else record r.status { tools_invoked = r.tools }
