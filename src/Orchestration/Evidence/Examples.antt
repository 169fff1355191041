-- ===== src/Orchestration/Evidence/Examples.antt =====
-- A lookup that finds nothing, and its follow-up.
use repo_agent.Prelude.{◌≡◌, refl, true, false, ◌||◌, none, some, [], ◌∷◌}
use repo_agent.Prelude.Text.{codes}
use repo_agent.Prelude.Words.{Text}
use repo_agent.Prelude.Json.{Json, object, end, field, bool, array, cons, nil, str, has_field}
use repo_agent.Orchestration.Models.{
  graph_query, code_analyst, rules, lookup_kind, mixed_kind, ExecutionPlan, EvidenceAssessment,
  AgentOutput, same_agent,
}
use repo_agent.Orchestration.Loop.{Outputs}
use repo_agent.Orchestration.Evidence.Findings.{output_of}
use repo_agent.Orchestration.Evidence.Assess.{evaluate_evidence, facts_of}
use repo_agent.Orchestration.Evidence.Assess.Verdicts.{answers_kind, evaluate_evidence-sufficient}
use repo_agent.Orchestration.Evidence.Refine.{refine_plan, follow_up}
use repo_agent.Orchestration.Evidence.Refine.Progress.{IsRefinement, refine_plan-IsRefinement}
use repo_agent.Orchestration.Evidence.Merge.{merge_agent_outputs, fields_of}
use repo_agent.Orchestration.Evidence.Merge.Values.{HasKeys}
use repo_agent.Orchestration.Evidence.Merge.Keeping.{IsKeyed, Keeps, merge_agent_outputs-Keeps}

abbrev plan : ExecutionPlan
plan = record {
  routing_mode = rules;
  intent = record {
    routing_mode = rules;
    intent = lookup_kind;
    entities = codes "Ruoter" ∷ [];
    target_agents = graph_query ∷ [];
    reasoning = [];
  };
  agents = graph_query ∷ [];
  search_terms = none;
  iteration = 1;
  refinement_reason = "";
  retry_tools = none;
}

abbrev query : Text
query = codes "where is Ruoter for requests"

abbrev missed : AgentOutput Json
missed = record {
  ok = true;
  output = some (object (field "find_entity" (object (field "found" (bool false) end)) end));
  error = none;
  degraded_note = none;
  tools_invoked = codes "graph_query.find_entity" ∷ [];
}

abbrev outputs : Outputs Json
outputs = (graph_query, missed) ∷ []

str_of : Json → Text
str_of v = []

abbrev assessment : EvidenceAssessment
assessment = record {
  sufficient = false;
  reason = "no_graph_hits";
  broader_terms = query ∷ [];
  suggested_agents = code_analyst ∷ [];
  suggested_tools = codes "find_entity" ∷ [];
}

assessed : evaluate_evidence str_of query plan outputs ≡ assessment
unfolding evaluate_evidence facts_of
assessed = refl

evaluate_evidence-sufficient_example : (evaluate_evidence str_of query plan outputs).sufficient ≡ (
    (facts_of query plan outputs).out_of_scope
    || answers_kind (facts_of query plan outputs) (facts_of query plan outputs).kind)
evaluate_evidence-sufficient_example = evaluate_evidence-sufficient str_of query plan outputs

abbrev next : ExecutionPlan
next = record {
  routing_mode = rules;
  intent = record {
    routing_mode = rules;
    intent = mixed_kind;
    entities = codes "Ruoter" ∷ query ∷ [];
    target_agents = graph_query ∷ code_analyst ∷ [];
    reasoning = codes "refine: no_graph_hits";
  };
  agents = graph_query ∷ code_analyst ∷ [];
  search_terms = some (query ∷ []);
  iteration = 2;
  refinement_reason = "no_graph_hits";
  retry_tools = none;
}

follows_up : refine_plan plan assessment ≡ follow_up next
unfolding refine_plan
follows_up = refl

refine_plan-IsRefinement_example : IsRefinement plan assessment (refine_plan plan assessment)
refine_plan-IsRefinement_example = refine_plan-IsRefinement plan assessment

abbrev failed : AgentOutput Json
failed = record {
  ok = false;
  output = none;
  error = some "timeout";
  degraded_note = some "timeout";
  tools_invoked = codes "graph_query.find_related" ∷ [];
}

abbrev related : AgentOutput Json
related = record missed {
  output = some (object (field "related" (array (cons (str query) nil)) end));
  tools_invoked = codes "graph_query.find_related" ∷ [];
}

merge_agent_outputs-Keeps_example :
    Keeps
      (output_of graph_query outputs)
      (output_of graph_query ((graph_query, related) ∷ (code_analyst, failed) ∷ []))
      (output_of graph_query
        (merge_agent_outputs outputs ((graph_query, related) ∷ (code_analyst, failed) ∷ [])))
unfolding IsKeyed output_of HasKeys fields_of same_agent has_field
merge_agent_outputs-Keeps_example =
    merge_agent_outputs-Keeps graph_query outputs
      ((graph_query, related) ∷ (code_analyst, failed) ∷ []) (refl, (refl, tt), (refl, tt, tt))
