-- ===== src/Orchestration/Evidence/Refine/News.antt =====
-- core/src/core/orchestration/evidence.py, `refine_plan`: whether an assessment offers something new.
use repo_agent.Prelude.{
  ◌≡◌, refl, sym, subst, inl, inr, Bool, true, false, not, ◌&&◌, ◌||◌, List, [], ◌∷◌, ◌++◌,
  append_assoc, arith, Bool-cases,
}
use repo_agent.Prelude.Words.{Text, mem_text}
use repo_agent.Orchestration.Models.{
  AgentName, code_analyst, same_agent, mem_agent, ExecutionPlan, EvidenceAssessment,
}
use repo_agent.Orchestration.Evidence.Terms.{without_blank}
use repo_agent.Orchestration.Evidence.Refine.{
  add_new_agents, same_agents, is_none_left, has_retries, graph_tools, not_graph_tools,
  retry_tools_for, has_news,
}

-- Is one of the agents suggested not in the list?
unfoldable pub names_new : List AgentName → List AgentName → Bool
unfolding mem_agent
names_new agents [] = false
names_new agents (b ∷ suggested) = not (mem_agent b agents) || names_new agents suggested

-- Is one of the tools no graph tool?
unfoldable pub has_other_tool : List Text → Bool
unfolding mem_text
has_other_tool [] = false
has_other_tool (t ∷ ts) = not (mem_text t graph_tools) || has_other_tool ts

same_agents_refl : (xs : List AgentName) → same_agents xs xs ≡ true
unfolding same_agents same_agent
same_agents_refl [] = refl
same_agents_refl (x ∷ xs) = ground (arith, same_agents_refl xs)

longer_differ : (xs ys : List AgentName) (b : AgentName) → same_agents (xs ++ b ∷ ys) xs ≡ false
unfolding same_agents
longer_differ [] ys b = refl
longer_differ (x ∷ xs) ys b = ground (arith, longer_differ xs ys b)

added_differ :
    (xs ys : List AgentName) (b : AgentName) (suggested : List AgentName)
    → same_agents (add_new_agents (xs ++ b ∷ ys) suggested) xs ≡ false
unfolding add_new_agents
added_differ xs ys b [] = longer_differ xs ys b
added_differ xs ys b (c ∷ suggested) = elim (Bool-cases (mem_agent c (xs ++ b ∷ ys))) [
  | inl h ↦ rw (h, add_new_agents) (added_differ xs ys b suggested)
  | inr h ↦
      rw (h, add_new_agents)
        (subst (λ zs. same_agents (add_new_agents zs suggested) xs ≡ false)
          (sym (append_assoc xs (b ∷ ys) (c ∷ []))) (added_differ xs (ys ++ c ∷ []) b suggested))
]

pub same_agents-add_new :
    (xs suggested : List AgentName)
    → same_agents (add_new_agents xs suggested) xs ≡ not (names_new xs suggested)
unfolding add_new_agents names_new
same_agents-add_new xs [] = same_agents_refl xs
same_agents-add_new xs (b ∷ suggested) = elim (Bool-cases (mem_agent b xs)) [
  | inl h ↦ rw (h, add_new_agents, names_new) (same_agents-add_new xs suggested)
  | inr h ↦ rw (h, add_new_agents, names_new) (added_differ xs [] b suggested)
]

is_none_left-not_graph_tools :
    (ts : List Text) → not (is_none_left (not_graph_tools ts)) ≡ has_other_tool ts
unfolding is_none_left not_graph_tools has_other_tool
is_none_left-not_graph_tools [] = refl
is_none_left-not_graph_tools (t ∷ ts) = elim (Bool-cases (mem_text t graph_tools)) [
  | inl h ↦ rw (h, not_graph_tools, has_other_tool) (is_none_left-not_graph_tools ts)
  | inr h ↦ rw (h, not_graph_tools, has_other_tool) refl
]

has_retries-retry_tools_for :
    (x : Bool) (ts : List Text) → has_retries (retry_tools_for x ts) ≡ (x && has_other_tool ts)
unfolding has_retries retry_tools_for
has_retries-retry_tools_for true ts = is_none_left-not_graph_tools ts
has_retries-retry_tools_for false ts = refl

-- Does the assessment offer something new: an agent that the plan does not aim at, a term that is not
-- blank, or, if the code analyst is in the plan, a tool to retry that is no graph tool?
unfoldable pub offers_new : ExecutionPlan → EvidenceAssessment → Bool
unfolding names_new has_other_tool is_none_left
offers_new plan a =
    names_new plan.intent.target_agents a.suggested_agents
    || (not (is_none_left (without_blank a.broader_terms))
        || (mem_agent code_analyst plan.agents && has_other_tool a.suggested_tools))

pub has_news-offers_new :
    (plan : ExecutionPlan) (a : EvidenceAssessment) → has_news plan a ≡ offers_new plan a
unfolding has_news offers_new
has_news-offers_new plan a = ground (
  arith,
  same_agents-add_new plan.intent.target_agents a.suggested_agents,
  has_retries-retry_tools_for (mem_agent code_analyst plan.agents) a.suggested_tools,
)
