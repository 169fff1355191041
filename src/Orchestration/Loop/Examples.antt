-- ===== src/Orchestration/Loop/Examples.antt =====
-- A loop whose rounds never find enough, ten ticks apart.
use repo_agent.Prelude.{
  ℕ, ◌+◌, ◌*◌, ◌≤◌, ◌<◌, ◌≡◌, refl, true, false, none, some, [], ◌∷◌, map, arith, length,
}
use repo_agent.Prelude.Int.{pos, clamp_one}
use repo_agent.Prelude.Text.{codes}
use repo_agent.Orchestration.Models.{
  graph_query, rules, ExecutionPlan, EvidenceAssessment, AgentOutput, relationship_kind,
}
use repo_agent.Orchestration.Loop.{
  Calls, allows, next_plan, run_round, rounds, cutoff, run_refinement_loop,
}
use repo_agent.Orchestration.Loop.Rounds.{
  deadline_reading, IsSettled, run_refinement_loop-IsSettled,
}

abbrev first_plan : ExecutionPlan
first_plan = record {
  routing_mode = rules;
  intent = record {
    routing_mode = rules;
    intent = relationship_kind;
    entities = codes "main" ∷ [];
    target_agents = graph_query ∷ [];
    reasoning = [];
  };
  agents = graph_query ∷ [];
  search_terms = none;
  iteration = 1;
  refinement_reason = "";
  retry_tools = none;
}

abbrev found_nothing : AgentOutput ℕ
found_nothing = record {
  ok = true;
  output = some 0;
  error = none;
  degraded_note = none;
  tools_invoked = codes "graph_query.find_entity" ∷ [];
}

abbrev not_enough : EvidenceAssessment
not_enough = record {
  sufficient = false;
  reason = "empty";
  broader_terms = [];
  suggested_agents = [];
  suggested_tools = [];
}

abbrev searching : Calls ℕ
searching = record {
  run_plan = λ i plan budget. ((graph_query, found_nothing) ∷ [], budget);
  merge_agent_outputs = λ before after. after;
  evaluate_evidence = λ plan outputs. not_enough;
  refine_plan = λ plan a. some (record plan { iteration = plan.iteration + 1 });
  estimated_tokens = λ outputs. 100;
  ledger = λ i. none;
  correlation_id = "r";
  clock = λ i. (i * 10, i * 10, i * 10);
}

-- Three rounds are asked for; the third would start at 20, behind the cutoff.
two_rounds :
    map
      (λ it. it.iteration)
      (run_refinement_loop searching (pos 3) (pos 15) none 0 0 30 first_plan none).iterations
    ≡ 1 ∷ 2 ∷ []
unfolding run_refinement_loop rounds allows next_plan run_round
two_rounds = refl

run_refinement_loop-IsSettled_example :
    let its =
      (run_refinement_loop searching (pos 3) (pos 15) none 0 0 30 first_plan none).iterations in
    (length its ≤ clamp_one (pos 3)) × IsSettled its
run_refinement_loop-IsSettled_example =
    run_refinement_loop-IsSettled searching (pos 3) (pos 15) none 0 0 30 first_plan none

late_from_two : (j : ℕ) → 1 < j → cutoff 0 (pos 15) none none ≤ deadline_reading searching j
unfolding cutoff
late_from_two j after = omega arith
