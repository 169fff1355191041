-- ===== src/Orchestration/Router/Intents/Fallback.antt =====
-- core/src/core/orchestration/router.py: without the model's answer there is always a plan.
use repo_agent.Prelude.{
  ◌≡◌, refl, sym, ◌∙◌, ◌≢◌, inl, inr, Bool, true, false, Option, some, List, [], ◌∷◌, if◌then◌else◌,
  Bool-cases,
}
use repo_agent.Prelude.Int.{ℤ}
use repo_agent.Prelude.Words.{Text}
use repo_agent.Memory.Tables.{ConversationContext}
use repo_agent.Orchestration.Models.{
  AgentName, indexer, graph_query, code_analyst, mem_agent, rules_fallback, QueryIntent,
  ExecutionPlan, RuleRouteResult,
}
use repo_agent.Orchestration.Router.Names.{wants_codebase_grounding}
use repo_agent.Orchestration.Router.Rules.{rule_based_route}
use repo_agent.Orchestration.Router.Rules.Decisions.{route-targets}
use repo_agent.Orchestration.Router.Intents.{
  ordered_agents, fallback_target_agents, normalize_grounded_intent, intent_from_rule_result,
  intent_from_rules_fallback, route_to_agents, plan_for, in_order, add_agents,
}
use repo_agent.Orchestration.Router.Intents.Grounding.{canonical, normalize_grounded_intent-grounds}

-- The intent has a plan, with its agents and its routing mode, in round 1.
unfoldable pub HasPlan : QueryIntent → Type 0
HasPlan intent =
    (p : ExecutionPlan) × (route_to_agents intent ≡ some p)
    × (p.agents ≡ intent.target_agents)
    × (p.agents ≢ [])

plan-agents :
    (intent : QueryIntent) (xs : List AgentName)
    → xs ≢ []
    → (p : ExecutionPlan) × (plan_for intent xs ≡ some p) × (p.agents ≡ xs) × (p.agents ≢ [])
unfolding plan_for
plan-agents intent [] some_agent = absurd (some_agent refl)
plan-agents intent (a ∷ xs) some_agent = (_, refl, refl, λ e. cc)

targets-HasPlan : (intent : QueryIntent) → intent.target_agents ≢ [] → HasPlan intent
unfolding HasPlan route_to_agents
targets-HasPlan intent some_agent = plan-agents intent intent.target_agents some_agent

canonical_some : (i m : Bool) → canonical i true true m ≢ []
unfolding canonical
canonical_some true m = λ e. cc
canonical_some false m = λ e. cc

normalize-targets :
    (intent : QueryIntent) (query : Text)
    → intent.target_agents ≢ []
    → (normalize_grounded_intent intent query).target_agents ≢ []
unfolding normalize_grounded_intent
normalize-targets intent query some_agent = elim (Bool-cases (wants_codebase_grounding query)) [
  | inl wanted ↦
      let (same, kind, again) = normalize_grounded_intent-grounds intent query wanted in
      λ e. canonical_some _ _ (sym same ∙ e)
  | inr plain ↦ rw plain some_agent
]

rule-targets :
    (query : Text) (route : RuleRouteResult) (context : Option ConversationContext)
    → route.target_agents ≢ []
    → (intent_from_rule_result query route rules_fallback context).target_agents ≢ []
unfolding intent_from_rule_result
rule-targets query route context some_agent = normalize-targets _ query some_agent

either_some : (b : Bool) (xs ys : List AgentName) → xs ≢ [] → ys ≢ [] → (if b then xs else ys) ≢ []
either_some true xs ys p q = p
either_some false xs ys p q = q

fallback_targets_some : (query : Text) → fallback_target_agents query ≢ []
unfolding fallback_target_agents ordered_agents in_order add_agents mem_agent
fallback_targets_some query =
    either_some _ (indexer ∷ graph_query ∷ code_analyst ∷ []) (graph_query ∷ code_analyst ∷ [])
      (λ e. cc) (λ e. cc)

-- Whatever the query, the context and the limit on its length, the intent that the rules give without
-- the model's answer has a plan: `route_to_agents` raises no RoutingError, and the plan's agents are
-- the intent's targets, of which there is at least one.
pub intent_from_rules_fallback-HasPlan :
    (max_tokens : ℤ) (query : Text) (context : Option ConversationContext)
    → HasPlan (intent_from_rules_fallback max_tokens query context)
unfolding intent_from_rules_fallback
intent_from_rules_fallback-HasPlan max_tokens query context =
    elim (Bool-cases (rule_based_route max_tokens query).ambiguous) [
      | inl unsure ↦
          rw unsure (targets-HasPlan _ (normalize-targets _ query (fallback_targets_some query)))
      | inr sure ↦ rw sure (
          targets-HasPlan _ (
            rule-targets query (rule_based_route max_tokens query) context
              (route-targets max_tokens query sure)))
    ]
