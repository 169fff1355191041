-- ===== src/Orchestration/Router/Intents.antt =====
-- core/src/core/orchestration/router.py: from a route or the model's answer to an intent, and from an
-- intent to a plan.
pub mod Grounding
pub mod Fallback
pub mod Kinds
use repo_agent.Prelude.{
  String, Bool, false, not, ◌&&◌, ◌||◌, Option, none, some, List, [], ◌∷◌, ◌++◌, str_eq,
  if◌then◌else◌,
}
use repo_agent.Prelude.Int.{ℤ}
use repo_agent.Prelude.Text.{codes}
use repo_agent.Prelude.Words.{Text, same_text, lower, strip, has_any_word, dedupe}
use repo_agent.Memory.Tables.{ConversationTurn, ConversationContext}
use repo_agent.Observability.Ledger.{LlmSettings, TokenUsage, Ledger, record_usage}
use repo_agent.Orchestration.Models.{
  AgentName, indexer, graph_query, code_analyst, memory, mem_agent, RoutingMode, rules,
  rules_fallback, IntentKind, lookup_kind, relationship_kind, explanation_kind, pattern_kind,
  comparison_kind, indexing_kind, mixed_kind, QueryIntent, ExecutionPlan, RuleRouteResult,
}
use repo_agent.Orchestration.Router.Names.{
  rule_based_entities, wants_codebase_grounding, has_referring_expression,
}
use repo_agent.Orchestration.Router.Rules.{rule_based_route}

abbrev pub agent_order : List AgentName
agent_order = indexer ∷ graph_query ∷ code_analyst ∷ memory ∷ []

-- for agent in _AGENT_ORDER: if agent in agents and agent not in ordered
in_order : List AgentName → List AgentName → List AgentName → List AgentName
unfolding mem_agent
in_order [] agents ordered = ordered
in_order (a ∷ order) agents ordered =
    in_order order agents
      (if mem_agent a agents && not (mem_agent a ordered) then ordered ++ a ∷ [] else ordered)

-- for agent in agents: if agent not in ordered
add_agents : List AgentName → List AgentName → List AgentName
unfolding mem_agent
add_agents [] ordered = ordered
add_agents (a ∷ agents) ordered =
    add_agents agents (if mem_agent a ordered then ordered else ordered ++ a ∷ [])

unfoldable pub ordered_agents : List AgentName → List AgentName
unfolding in_order add_agents
ordered_agents agents = add_agents agents (in_order agent_order agents [])

with_agent : AgentName → List AgentName → List AgentName
unfolding mem_agent ordered_agents
with_agent a agents = if mem_agent a agents then agents else ordered_agents (agents ++ a ∷ [])

unfoldable pub grounded_agents : List AgentName → List AgentName
unfolding with_agent
grounded_agents agents = with_agent code_analyst (with_agent graph_query (ordered_agents agents))

unfoldable pub grounded_kind : IntentKind → List AgentName → IntentKind
grounded_kind indexing_kind agents =
    if mem_agent graph_query agents || mem_agent code_analyst agents
    then mixed_kind
    else indexing_kind
grounded_kind lookup_kind agents = explanation_kind
grounded_kind pattern_kind agents = explanation_kind
grounded_kind relationship_kind agents =
    if mem_agent code_analyst agents then mixed_kind else relationship_kind
grounded_kind kind agents = kind

-- When nothing changes, the update gives the intent itself.
unfoldable pub normalize_grounded_intent : QueryIntent → Text → QueryIntent
unfolding grounded_agents grounded_kind
normalize_grounded_intent intent query =
    if wants_codebase_grounding query
    then record intent {
      target_agents = grounded_agents intent.target_agents;
      intent = grounded_kind intent.intent (grounded_agents intent.target_agents);
    }
    else intent

unfoldable pub fallback_target_agents : Text → List AgentName
unfolding has_any_word lower
fallback_target_agents query =
    if has_any_word (codes "index" ∷ codes "reindex" ∷ []) (lower query)
    then ordered_agents (indexer ∷ graph_query ∷ code_analyst ∷ [])
    else ordered_agents (graph_query ∷ code_analyst ∷ [])

is_user : Text → Bool
is_user role = same_text role (codes "user")

-- The entities of the turns of the user, the newest first.
turn_entities : List ConversationTurn → List Text → List Text
unfolding is_user
turn_entities [] later = later
turn_entities (t ∷ ts) later =
    turn_entities ts (if is_user t.role then rule_based_entities t.content ++ later else later)

summary_entities : Text → List Text
summary_entities [] = []
summary_entities (c ∷ s) = rule_based_entities (c ∷ s)

unfoldable pub entities_from_context : Option ConversationContext → List Text
unfolding turn_entities summary_entities
entities_from_context none = []
entities_from_context (some context) =
    dedupe (turn_entities context.recent_turns (summary_entities (strip context.summary)))

merged_entities : Bool → List Text → List Text → List Text
merged_entities referring prior [] = prior
merged_entities referring [] extracted = extracted
merged_entities referring (p ∷ prior) (e ∷ extracted) =
    if referring then dedupe ((p ∷ prior) ++ e ∷ extracted) else e ∷ extracted

unfoldable pub resolve_entities : Text → List Text → Option ConversationContext → List Text
unfolding merged_entities
resolve_entities query extracted context =
    merged_entities (has_referring_expression query) (entities_from_context context) extracted

unfoldable pub has_rule : String → List String → Bool
has_rule w [] = false
has_rule w (r ∷ rs) = str_eq r w || has_rule w rs

unfoldable pub kind_by : List AgentName → List String → IntentKind
unfolding has_rule
kind_by (indexer ∷ []) matched = indexing_kind
kind_by (code_analyst ∷ []) matched = pattern_kind
kind_by (graph_query ∷ []) matched =
    if has_rule "relationship" matched then relationship_kind else lookup_kind
kind_by agents matched = if has_rule "compare" matched then comparison_kind else explanation_kind

unfoldable pub kind_of_route : RuleRouteResult → IntentKind
unfolding kind_by
kind_of_route route = kind_by route.target_agents route.matched_rules

joined_rules : List String → Text
joined_rules [] = []
joined_rules (r ∷ []) = codes r
joined_rules (r ∷ s ∷ rs) = codes r ++ (codes ", " ++ joined_rules (s ∷ rs))

unfoldable pub intent_from_rule_result :
    Text → RuleRouteResult → RoutingMode → Option ConversationContext → QueryIntent
unfolding kind_of_route joined_rules
intent_from_rule_result query route routing_mode context =
    normalize_grounded_intent
      (record {
        routing_mode = routing_mode;
        intent = kind_of_route route;
        entities = resolve_entities query (rule_based_entities query) context;
        target_agents = route.target_agents;
        reasoning = codes "rules: matched " ++ joined_rules route.matched_rules;
      })
      query

-- When nothing changes, the update gives the intent itself.
unfoldable pub apply_conversation_entities :
    QueryIntent → Text → Option ConversationContext → QueryIntent
unfolding resolve_entities
apply_conversation_entities intent query context = record intent {
  entities = resolve_entities query intent.entities context;
}

unfoldable pub intent_from_rules_fallback : ℤ → Text → Option ConversationContext → QueryIntent
unfolding intent_from_rule_result
intent_from_rules_fallback max_tokens query context =
    let route = rule_based_route max_tokens query in
    if route.ambiguous
    then normalize_grounded_intent
        (record {
          routing_mode = rules_fallback;
          intent = mixed_kind;
          entities = resolve_entities query (rule_based_entities query) context;
          target_agents = fallback_target_agents query;
          reasoning = codes "rules_fallback: ambiguous fallback defaulted to mixed";
        })
        query
    else intent_from_rule_result query route rules_fallback context

-- How the call of the model ends: with an intent or another result and its usage, with a RoutingError,
-- or with another exception.
pub data RoutingAnswer : Type 0 where
  routed : QueryIntent → TokenUsage → RoutingAnswer
  unrouted : TokenUsage → RoutingAnswer
  routing_error : RoutingAnswer
  call_failed : RoutingAnswer

-- token_ledger.record(correlation_id, "routing", result.usage), given both
record_routing : LlmSettings → Option Ledger → Option String → TokenUsage → Option Ledger
record_routing settings (some ledger) (some cid) usage =
    some (record_usage settings cid "routing" usage ledger)
record_routing settings ledger cid usage = ledger

-- The intent, unless a RoutingError is passed on, and the ledger.
unfoldable pub analyze_query :
    LlmSettings
    → ℤ
    → Text
    → Option ConversationContext
    → Option Ledger
    → Option String
    → RoutingAnswer
    → Option QueryIntent × Option Ledger
unfolding record_routing apply_conversation_entities normalize_grounded_intent
analyze_query settings max_tokens query context ledger cid (routed intent usage) = (
  some (normalize_grounded_intent (apply_conversation_entities intent query context) query),
  record_routing settings ledger cid usage,
)
analyze_query settings max_tokens query context ledger cid (unrouted usage) = (
  some (intent_from_rules_fallback max_tokens query context),
  record_routing settings ledger cid usage,
)
analyze_query settings max_tokens query context ledger cid routing_error = (none, ledger)
analyze_query settings max_tokens query context ledger cid call_failed =
    (some (intent_from_rules_fallback max_tokens query context), ledger)

unfoldable pub plan_for : QueryIntent → List AgentName → Option ExecutionPlan
plan_for intent [] = none
plan_for intent (a ∷ agents) = some (record {
  routing_mode = intent.routing_mode;
  intent = intent;
  agents = a ∷ agents;
  search_terms = none;
  iteration = 1;
  refinement_reason = "";
  retry_tools = none;
})

-- none where a RoutingError is raised.
unfoldable pub route_to_agents : QueryIntent → Option ExecutionPlan
unfolding plan_for
route_to_agents intent = plan_for intent intent.target_agents
