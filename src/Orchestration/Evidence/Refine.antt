-- ===== src/Orchestration/Evidence/Refine.antt =====
-- core/src/core/orchestration/evidence.py, `refine_plan`.
pub mod News
pub mod Progress
use repo_agent.Prelude.{
  ◌+◌, Bool, true, false, not, ◌&&◌, ◌||◌, Option, none, some, List, [], ◌∷◌, ◌++◌, if◌then◌else◌,
}
use repo_agent.Prelude.Text.{codes}
use repo_agent.Prelude.Words.{Text, mem_text, add_new}
use repo_agent.Orchestration.Models.{
  AgentName, code_analyst, same_agent, mem_agent, IntentKind, lookup_kind, mixed_kind, QueryIntent,
  ExecutionPlan, EvidenceAssessment,
}
use repo_agent.Orchestration.Router.Intents.{route_to_agents}
use repo_agent.Orchestration.Executor.Tools.{
  find_entity, get_dependencies, get_dependents, trace_imports, find_related,
}
use repo_agent.Orchestration.Evidence.Terms.{without_blank}

unfoldable pub add_new_agents : List AgentName → List AgentName → List AgentName
unfolding mem_agent
add_new_agents agents [] = agents
add_new_agents agents (a ∷ suggested) =
    add_new_agents (if mem_agent a agents then agents else agents ++ a ∷ []) suggested

unfoldable pub same_agents : List AgentName → List AgentName → Bool
unfolding same_agent
same_agents [] [] = true
same_agents [] (b ∷ bs) = false
same_agents (a ∷ xs) [] = false
same_agents (a ∷ xs) (b ∷ bs) = same_agent a b && same_agents xs bs

-- _GRAPH_TOOLS
abbrev pub graph_tools : List Text
graph_tools = find_entity ∷ get_dependencies ∷ get_dependents ∷ trace_imports ∷ find_related ∷ []

not_graph_tools : List Text → List Text
unfolding mem_text
not_graph_tools [] = []
not_graph_tools (t ∷ ts) =
    if mem_text t graph_tools then not_graph_tools ts else t ∷ not_graph_tools ts

retry_tools_for : Bool → List Text → Option (List Text)
unfolding not_graph_tools
retry_tools_for true suggested = some (not_graph_tools suggested)
retry_tools_for false suggested = none

unfoldable pub is_none_left : List Text → Bool
is_none_left [] = true
is_none_left (t ∷ ts) = false

unfoldable pub has_retries : Option (List Text) → Bool
unfolding is_none_left
has_retries none = false
has_retries (some ts) = not (is_none_left ts)

-- The second branch of the source finds a lookup no more, which the first has taken.
unfoldable pub refined_kind : Bool → Bool → IntentKind → IntentKind
refined_kind changed analyst lookup_kind = if changed && analyst then mixed_kind else lookup_kind
refined_kind changed analyst kind = kind

or_absent : List Text → Option (List Text)
or_absent [] = none
or_absent (t ∷ ts) = some (t ∷ ts)

-- No follow-up, a plan, or the RoutingError of `route_to_agents`.
pub data Refinement : Type 0 where
  nothing_new : Refinement
  follow_up : ExecutionPlan → Refinement
  unroutable : Refinement

updated :
    ExecutionPlan
    → EvidenceAssessment
    → List Text
    → Option (List Text)
    → Option ExecutionPlan
    → Refinement
unfolding or_absent
updated plan a new_terms retry_tools none = unroutable
updated plan a new_terms retry_tools (some p) = follow_up (record p {
  search_terms = or_absent new_terms;
  iteration = plan.iteration + 1;
  refinement_reason = a.reason;
  retry_tools = retry_tools;
})

unfoldable pub refined_intent : QueryIntent → EvidenceAssessment → QueryIntent
unfolding add_new_agents same_agents refined_kind add_new without_blank mem_agent
refined_intent intent a =
    let new_agents = add_new_agents intent.target_agents a.suggested_agents in
    let changed = not (same_agents new_agents intent.target_agents) in
    record intent {
      entities = add_new intent.entities (without_blank a.broader_terms);
      target_agents = new_agents;
      intent = refined_kind changed (mem_agent code_analyst new_agents) intent.intent;
      reasoning = codes "refine: " ++ codes a.reason;
    }

-- Is there something new to try?
unfoldable pub has_news : ExecutionPlan → EvidenceAssessment → Bool
unfolding add_new_agents same_agents is_none_left has_retries retry_tools_for without_blank
    mem_agent
has_news plan a =
    not (
      same_agents (add_new_agents plan.intent.target_agents a.suggested_agents)
        plan.intent.target_agents)
    || (not (is_none_left (without_blank a.broader_terms))
        || has_retries (retry_tools_for (mem_agent code_analyst plan.agents) a.suggested_tools))

unfoldable pub refine_plan : ExecutionPlan → EvidenceAssessment → Refinement
unfolding has_news updated refined_intent retry_tools_for without_blank route_to_agents
refine_plan plan a =
    if a.sufficient || not (has_news plan a)
    then nothing_new
    else updated plan a (without_blank a.broader_terms)
        (retry_tools_for (mem_agent code_analyst plan.agents) a.suggested_tools)
        (route_to_agents (refined_intent plan.intent a))
