-- ===== src/Orchestration/Models.antt =====
-- core/src/core/orchestration/models.py.
use repo_agent.Prelude.{ℕ, String, Bool, true, false, ◌||◌, Option, List, [], ◌∷◌}
use repo_agent.Prelude.Words.{Text}

pub data AgentName : Type 0 where
  indexer graph_query code_analyst memory : AgentName

pub data RoutingMode : Type 0 where
  llm rules rules_fallback : RoutingMode

-- QueryIntentIntent
pub data IntentKind : Type 0 where
  lookup_kind relationship_kind explanation_kind pattern_kind : IntentKind
  comparison_kind indexing_kind mixed_kind : IntentKind

pub record QueryIntent : Type 0 where
  pub routing_mode : RoutingMode
  pub intent : IntentKind
  pub entities : List Text
  pub target_agents : List AgentName
  pub reasoning : Text

pub record ExecutionPlan : Type 0 where
  pub routing_mode : RoutingMode
  pub intent : QueryIntent
  pub agents : List AgentName
  pub search_terms : Option (List Text)
  pub iteration : ℕ
  pub refinement_reason : String
  pub retry_tools : Option (List Text)

pub record RuleRouteResult : Type 0 where
  pub target_agents : List AgentName
  pub matched_rules : List String
  pub ambiguous : Bool

pub record EvidenceAssessment : Type 0 where
  pub sufficient : Bool
  pub reason : String
  pub broader_terms : List Text
  pub suggested_agents : List AgentName
  pub suggested_tools : List Text

pub record PlanIteration : Type 0 where
  pub iteration : ℕ
  pub routing_mode : RoutingMode
  pub agents : List AgentName
  pub tools_invoked : List Text
  pub search_terms : List Text
  pub sufficient : Bool
  pub reason : String
  pub refinement : Option String

-- An AgentOutput, whose `output` is of any type.
pub record AgentOutput (A : Type 0) : Type 0 where
  pub ok : Bool
  pub output : Option A
  pub error : Option String
  pub degraded_note : Option String
  pub tools_invoked : List Text

unfoldable pub same_agent : AgentName → AgentName → Bool
same_agent indexer indexer = true
same_agent graph_query graph_query = true
same_agent code_analyst code_analyst = true
same_agent memory memory = true
same_agent a b = false

unfoldable pub mem_agent : AgentName → List AgentName → Bool
unfolding same_agent
mem_agent a [] = false
mem_agent a (b ∷ bs) = same_agent a b || mem_agent a bs
