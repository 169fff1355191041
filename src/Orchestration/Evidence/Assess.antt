-- ===== src/Orchestration/Evidence/Assess.antt =====
-- core/src/core/orchestration/evidence.py, `evaluate_evidence`, with core/src/core/orchestration/scope.py.
pub mod Verdicts
use repo_agent.Prelude.{
  String, Bool, true, false, not, ◌&&◌, ◌||◌, Option, none, some, List, [], ◌∷◌, ◌++◌, ◌==◌,
  if◌then◌else◌,
}
use repo_agent.Prelude.Text.{codes, is_space, after_prefix}
use repo_agent.Prelude.Words.{Text, lower, has_any_word, mem_text}
use repo_agent.Prelude.Json.{Json}
use repo_agent.Orchestration.Models.{
  AgentName, indexer, graph_query, code_analyst, mem_agent, IntentKind, lookup_kind,
  relationship_kind, explanation_kind, pattern_kind, comparison_kind, indexing_kind, mixed_kind,
  ExecutionPlan, EvidenceAssessment, AgentOutput,
}
use repo_agent.Orchestration.Loop.{Outputs}
use repo_agent.Orchestration.Executor.Tools.{find_entity}
use repo_agent.Orchestration.Evidence.Findings.{
  output_of, agent_failed, has_graph_hits, has_analyst_evidence,
}
use repo_agent.Orchestration.Evidence.Terms.{
  tried_terms, successful_search_terms, failed_analyst_tools, broader_terms,
}

-- write[-\s]ahead\s+log, wherever it stands.
after_gap : Option Text → Option Text
unfolding is_space
after_gap none = none
after_gap (some []) = none
after_gap (some (c ∷ s)) = if c == b'-' || is_space c then after_prefix (codes "ahead") s else none

some_spaces : Text → Option Text
unfolding is_space
some_spaces [] = none
some_spaces (c ∷ s) = if is_space c then some s else none

skip_all : Option Text → Text
unfolding is_space
skip_all none = []
skip_all (some []) = []
skip_all (some (c ∷ s)) = if is_space c then skip_all (some s) else c ∷ s

write_ahead_here : Option Text → Bool
unfolding some_spaces skip_all after_prefix
write_ahead_here none = false
write_ahead_here (some s) = elim (some_spaces s) [
  | none ↦ false
  | some t ↦ elim (after_prefix (codes "log") (skip_all (some t))) [ none ↦ false | some u ↦ true ]
]

has_write_ahead : Text → Bool
unfolding write_ahead_here after_gap after_prefix
has_write_ahead [] = false
has_write_ahead (c ∷ s) =
    write_ahead_here (after_gap (after_prefix (codes "write") (c ∷ s))) || has_write_ahead s

-- A final \b of \breact(?:'s)?\b falls behind "react", or behind "react's".
abbrev trap_words : List Text
trap_words =
    codes "django"
    ∷ codes "rails"
    ∷ codes "activerecord"
    ∷ codes "kubernetes"
    ∷ codes "tensorflow"
    ∷ codes "gradienttape"
    ∷ codes "postgresql"
    ∷ codes "postgres"
    ∷ codes "useeffect"
    ∷ codes "react"
    ∷ codes "react's"
    ∷ []

unfoldable pub is_out_of_scope : Text → Bool
unfolding has_any_word has_write_ahead lower
is_out_of_scope query = has_any_word trap_words (lower query) || has_write_ahead (lower query)

-- What `evaluate_evidence` finds before it decides.
pub record Facts : Type 0 where
  pub out_of_scope : Bool
  pub kind : IntentKind
  pub indexer_ok : Bool
  pub graph_hits : Bool
  pub analyst_evidence : Bool
  pub graph_failed : Bool
  pub analyst_present : Bool
  pub analyst_failed : Bool
  pub analyst_planned : Bool
  pub graph_planned : Bool

unfoldable pub needs_graph : IntentKind → Bool
needs_graph pattern_kind = false
needs_graph indexing_kind = false
needs_graph kind = true

unfoldable pub needs_analyst : IntentKind → Bool → Bool
needs_analyst explanation_kind planned = true
needs_analyst comparison_kind planned = true
needs_analyst mixed_kind planned = true
needs_analyst lookup_kind planned = planned
needs_analyst relationship_kind planned = planned
needs_analyst kind planned = false

enough : String → EvidenceAssessment
enough reason = record {
  sufficient = true;
  reason = reason;
  broader_terms = [];
  suggested_agents = [];
  suggested_tools = [];
}

lacking : String → List Text → List AgentName → List Text → EvidenceAssessment
lacking reason terms agents tools = record {
  sufficient = false;
  reason = reason;
  broader_terms = terms;
  suggested_agents = agents;
  suggested_tools = tools;
}

agent_unless : Bool → AgentName → List AgentName
agent_unless true a = []
agent_unless false a = a ∷ []

-- suggested_tools: find_entity, and the failed tools that are not listed yet.
without : Text → List Text → List Text
unfolding mem_text
without t [] = []
without t (u ∷ us) = if mem_text u (t ∷ []) then without t us else u ∷ without t us

pattern_assessment : Facts → List Text → List Text → EvidenceAssessment
unfolding enough lacking agent_unless
pattern_assessment f broader failed =
    if f.analyst_evidence || (f.analyst_present && not f.analyst_failed)
    then enough "pattern_complete"
    else lacking "pattern_empty" broader (agent_unless f.analyst_planned code_analyst) failed

graph_assessment : Facts → List Text → List Text → EvidenceAssessment
unfolding enough lacking needs_analyst
graph_assessment f broader failed =
    let analyst = needs_analyst f.kind f.analyst_planned in
    if analyst && (not f.analyst_evidence && not f.analyst_planned)
    then lacking "missing_analyst" [] (code_analyst ∷ []) []
    else if analyst && (f.analyst_failed && not f.analyst_evidence)
    then lacking "analyst_failed" broader (code_analyst ∷ []) failed
    else enough "graph_hits"

no_hits_assessment : Facts → List Text → List Text → EvidenceAssessment
unfolding enough lacking needs_graph needs_analyst agent_unless without
no_hits_assessment f broader failed =
    if f.analyst_evidence
    then enough "analyst_evidence"
    else lacking
        (if f.graph_failed
          then "graph_failed"
          else if needs_analyst f.kind f.analyst_planned && not f.analyst_evidence
          then "insufficient_evidence"
          else "no_graph_hits")
        broader
        (agent_unless f.analyst_planned code_analyst
          ++ agent_unless (f.graph_planned || not (needs_graph f.kind)) graph_query)
        (if needs_graph f.kind then find_entity ∷ without find_entity failed else failed)

by_kind : Facts → IntentKind → List Text → List Text → EvidenceAssessment
unfolding pattern_assessment graph_assessment no_hits_assessment needs_graph enough lacking
by_kind f indexing_kind broader failed =
    if f.indexer_ok then enough "index_complete" else lacking "indexer_failed" [] (indexer ∷ []) []
by_kind f pattern_kind broader failed = pattern_assessment f broader failed
by_kind f kind broader failed =
    if needs_graph kind && f.graph_hits
    then graph_assessment f broader failed
    else no_hits_assessment f broader failed

unfoldable pub assess : Facts → List Text → List Text → EvidenceAssessment
unfolding by_kind enough
assess f broader failed =
    if f.out_of_scope then enough "out_of_scope" else by_kind f f.kind broader failed

ran_ok : Option (AgentOutput Json) → Bool
ran_ok none = false
ran_ok (some o) = o.ok

is_present : Option (AgentOutput Json) → Bool
is_present none = false
is_present (some o) = true

unfoldable pub facts_of : Text → ExecutionPlan → Outputs Json → Facts
unfolding is_out_of_scope ran_ok is_present output_of agent_failed has_graph_hits
    has_analyst_evidence mem_agent
facts_of query plan outputs = record {
  out_of_scope = is_out_of_scope query;
  kind = plan.intent.intent;
  indexer_ok = ran_ok (output_of indexer outputs);
  graph_hits = has_graph_hits outputs;
  analyst_evidence = has_analyst_evidence outputs;
  graph_failed = agent_failed (output_of graph_query outputs);
  analyst_present = is_present (output_of code_analyst outputs);
  analyst_failed = agent_failed (output_of code_analyst outputs);
  analyst_planned = mem_agent code_analyst plan.agents;
  graph_planned = mem_agent graph_query plan.agents;
}

unfoldable pub evaluate_evidence :
    (Json → Text) → Text → ExecutionPlan → Outputs Json → EvidenceAssessment
unfolding assess facts_of broader_terms tried_terms successful_search_terms failed_analyst_tools
evaluate_evidence str_of query plan outputs =
    assess (facts_of query plan outputs)
      (broader_terms query (tried_terms str_of plan outputs)
        (successful_search_terms str_of plan outputs))
      (failed_analyst_tools query plan outputs)
