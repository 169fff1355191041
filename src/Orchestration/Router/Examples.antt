-- ===== src/Orchestration/Router/Examples.antt =====
-- A query that compares two names, and one that asks for code.
use repo_agent.Prelude.{◌≡◌, refl, true, ◌||◌, none, some, [], ◌∷◌, if◌then◌else◌}
use repo_agent.Prelude.Int.{pos}
use repo_agent.Prelude.Text.{codes}
use repo_agent.Prelude.Words.{Text, lower}
use repo_agent.Orchestration.Models.{
  indexer, rules, comparison_kind, indexing_kind, QueryIntent, mem_agent, memory,
}
use repo_agent.Orchestration.Router.Names.{
  rule_based_entities, has_referring_expression, wants_codebase_grounding,
}
use repo_agent.Orchestration.Router.Rules.{
  rule_based_route, signals_of, exceeds, estimated_query_tokens,
}
use repo_agent.Orchestration.Router.Intents.{
  normalize_grounded_intent, intent_from_rules_fallback, kind_of_route,
}
use repo_agent.Orchestration.Router.Intents.Kinds.{
  kind_if_clear, kind_by_count, requests, requested_kind, rule_based_route-kind,
}
use repo_agent.Orchestration.Router.Intents.Fallback.{HasPlan, intent_from_rules_fallback-HasPlan}
use repo_agent.Orchestration.Router.Intents.Grounding.{
  canonical, IsGroundedKind, normalize_grounded_intent-grounds,
}

abbrev compared : Text
compared = codes "compare `APIRouter` with FastAPI.add_route"

names_found :
    rule_based_entities compared ≡ codes "APIRouter" ∷ codes "FastAPI" ∷ codes "add_route" ∷ []
unfolding rule_based_entities
names_found = refl

compared_kind : kind_if_clear (rule_based_route (pos 60) compared) ≡ some comparison_kind
unfolding kind_if_clear rule_based_route kind_of_route
compared_kind = refl

rule_based_route-kind_example : kind_if_clear (rule_based_route (pos 60) compared) ≡ (
    if exceeds (estimated_query_tokens compared) (pos 60)
    then none
    else kind_by_count
        (requests (signals_of (lower compared)))
        ((signals_of (lower compared)).lookup_word || has_referring_expression compared)
        (requested_kind (signals_of (lower compared))))
rule_based_route-kind_example = rule_based_route-kind (pos 60) compared

intent_from_rules_fallback-HasPlan_example :
    HasPlan (intent_from_rules_fallback (pos 60) (codes "compare and explain imports") none)
intent_from_rules_fallback-HasPlan_example =
    intent_from_rules_fallback-HasPlan (pos 60) (codes "compare and explain imports") none

abbrev asked : QueryIntent
asked = record {
  routing_mode = rules;
  intent = indexing_kind;
  entities = [];
  target_agents = memory ∷ indexer ∷ [];
  reasoning = [];
}

abbrev wanting_code : Text
wanting_code = codes "show the source code of the router"

normalize_grounded_intent-grounds_example :
    ((normalize_grounded_intent asked wanting_code).target_agents
      ≡ canonical
          (mem_agent indexer asked.target_agents)
          true
          true
          (mem_agent memory asked.target_agents))
    × IsGroundedKind (normalize_grounded_intent asked wanting_code).intent
    × (normalize_grounded_intent (normalize_grounded_intent asked wanting_code) wanting_code
        ≡ normalize_grounded_intent asked wanting_code)
unfolding wants_codebase_grounding
normalize_grounded_intent-grounds_example =
    normalize_grounded_intent-grounds asked wanting_code refl
