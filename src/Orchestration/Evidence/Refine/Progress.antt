-- ===== src/Orchestration/Evidence/Refine/Progress.antt =====
-- core/src/core/orchestration/evidence.py: a follow-up plan goes on from its plan.
use repo_agent.Prelude.{
  ◌+◌, ◌≡◌, refl, sym, ap, ◌∙◌, subst, inl, inr, Bool, true, false, not, ◌&&◌, ◌||◌, Option, none,
  some, List, [], ◌∷◌, ◌++◌, arith, if◌then◌else◌, Bool-cases,
}
use repo_agent.Prelude.Words.{Text, mem_text, mem_same, add_new, add_new-mem_text}
use repo_agent.Orchestration.Models.{
  AgentName, code_analyst, IntentKind, lookup_kind, mixed_kind, same_agent, mem_agent, QueryIntent,
  ExecutionPlan, EvidenceAssessment,
}
use repo_agent.Orchestration.Router.Intents.{route_to_agents, plan_for}
use repo_agent.Orchestration.Evidence.Terms.{without_blank}
use repo_agent.Orchestration.Evidence.Refine.{
  add_new_agents, same_agents, refined_kind, graph_tools, not_graph_tools, retry_tools_for,
  or_absent, Refinement, nothing_new, follow_up, unroutable, updated, refined_intent, has_news,
  refine_plan,
}
use repo_agent.Orchestration.Evidence.Refine.News.{
  names_new, same_agents-add_new, offers_new, has_news-offers_new,
}

mem_agent-append :
    (a : AgentName) (xs ys : List AgentName)
    → mem_agent a (xs ++ ys) ≡ (mem_agent a xs || mem_agent a ys)
unfolding mem_agent
mem_agent-append a [] ys = refl
mem_agent-append a (x ∷ xs) ys = ground (arith, mem_agent-append a xs ys)

same_agent_sound : (a b : AgentName) → same_agent a b ≡ true → a ≡ b
unfolding same_agent
same_agent_sound a b h = ground arith

mem_same_agent :
    (a b : AgentName) (agents : List AgentName)
    → same_agent a b ≡ true
    → mem_agent a agents ≡ mem_agent b agents
mem_same_agent a b agents h = ap (λ x. mem_agent x agents) (same_agent_sound a b h)

mem_agent-add_new :
    (a : AgentName) (agents suggested : List AgentName)
    → mem_agent a (add_new_agents agents suggested) ≡ (mem_agent a agents || mem_agent a suggested)
unfolding add_new_agents mem_agent
mem_agent-add_new a agents [] = ground arith
mem_agent-add_new a agents (b ∷ suggested) = elim (Bool-cases (mem_agent b agents)) [
  | inl h ↦
      rw (h, add_new_agents)
        (ground (arith, mem_agent-add_new a agents suggested, mem_same_agent a b agents))
  | inr h ↦
      rw (h, add_new_agents)
        (ground (
          arith,
          mem_agent-add_new a (agents ++ b ∷ []) suggested,
          mem_agent-append a agents (b ∷ []),
        ))
]

-- The terms or tools of an optional list.
unfoldable terms_in : Option (List Text) → List Text
terms_in none = []
terms_in (some ts) = ts

unfoldable is_given : Option (List Text) → Bool
is_given none = false
is_given (some ts) = true

terms_in-or_absent : (ts : List Text) → terms_in (or_absent ts) ≡ ts
unfolding terms_in or_absent
terms_in-or_absent [] = refl
terms_in-or_absent (t ∷ ts) = refl

is_given-retry_tools_for : (x : Bool) (ts : List Text) → is_given (retry_tools_for x ts) ≡ x
unfolding is_given retry_tools_for
is_given-retry_tools_for true ts = refl
is_given-retry_tools_for false ts = refl

mem_text-not_graph_tools :
    (t : Text) (ts : List Text)
    → mem_text t (not_graph_tools ts) ≡ (mem_text t ts && not (mem_text t graph_tools))
unfolding mem_text not_graph_tools
mem_text-not_graph_tools t [] = refl
mem_text-not_graph_tools t (u ∷ ts) = elim (Bool-cases (mem_text u graph_tools)) [
  | inl h ↦
      rw (h, not_graph_tools)
        (ground (arith, mem_text-not_graph_tools t ts, mem_same t u graph_tools))
  | inr h ↦
      rw (h, not_graph_tools)
        (ground (arith, mem_text-not_graph_tools t ts, mem_same t u graph_tools))
]

terms_in-retry_tools_for :
    (t : Text) (x : Bool) (ts : List Text)
    → mem_text t (terms_in (retry_tools_for x ts))
      ≡ (x && (mem_text t ts && not (mem_text t graph_tools)))
unfolding terms_in retry_tools_for mem_text
terms_in-retry_tools_for t true ts = mem_text-not_graph_tools t ts
terms_in-retry_tools_for t false ts = refl

-- The agents of a refined plan: those its intent aims at, and those the assessment suggests.
abbrev pub aims_at : ExecutionPlan → EvidenceAssessment → AgentName → Bool
aims_at plan a b = mem_agent b plan.intent.target_agents || mem_agent b a.suggested_agents

is_lookup : IntentKind → Bool
is_lookup lookup_kind = true
is_lookup k = false

-- A lookup that gains an agent and asks the code analyst becomes a mixed request.
unfoldable pub kind_after : ExecutionPlan → EvidenceAssessment → IntentKind
unfolding is_lookup names_new
kind_after plan a =
    if is_lookup plan.intent.intent
      && (names_new plan.intent.target_agents a.suggested_agents && aims_at plan a code_analyst)
    then mixed_kind
    else plan.intent.intent

-- The conditions of `refined_kind`, in other words.
refined_kind-is_lookup :
    (changed analyst : Bool) (k : IntentKind)
    → refined_kind changed analyst k
      ≡ (if is_lookup k && (changed && analyst) then mixed_kind else k)
unfolding refined_kind is_lookup
refined_kind-is_lookup changed analyst k = ground arith

refined_intent-kind_after :
    (plan : ExecutionPlan) (a : EvidenceAssessment)
    → (refined_intent plan.intent a).intent ≡ kind_after plan a
unfolding refined_intent kind_after
refined_intent-kind_after plan a =
    let agents = add_new_agents plan.intent.target_agents a.suggested_agents in
    refined_kind-is_lookup (not (same_agents agents plan.intent.target_agents))
      (mem_agent code_analyst agents) plan.intent.intent
    ∙ ap
        (λ x.
          if is_lookup plan.intent.intent && (not x && mem_agent code_analyst agents)
          then mixed_kind
          else plan.intent.intent)
        (same_agents-add_new plan.intent.target_agents a.suggested_agents)
    ∙ ground (arith, mem_agent-add_new code_analyst plan.intent.target_agents a.suggested_agents)

-- The follow-up `p` of a plan is its next round, for the reason of the assessment and in the plan's
-- routing mode. It has the agents aimed at, and the entities of the plan with the terms that are not
-- blank, and `kind_after` says of what kind it is. It searches for these terms alone, in their order. It has tools to retry exactly when the
-- plan had the code analyst, and these are the tools suggested that are no graph tools.
unfoldable pub IsFollowUp : ExecutionPlan → EvidenceAssessment → ExecutionPlan → Type 0
unfolding terms_in is_given
IsFollowUp plan a p =
    (p.iteration ≡ plan.iteration + 1)
    × (p.refinement_reason ≡ a.reason)
    × (p.routing_mode ≡ plan.intent.routing_mode)
    × ((b : AgentName) → mem_agent b p.agents ≡ aims_at plan a b)
    × ((t : Text)
        → mem_text t p.intent.entities
          ≡ (mem_text t plan.intent.entities || mem_text t (without_blank a.broader_terms)))
    × (p.intent.intent ≡ kind_after plan a)
    × (terms_in p.search_terms ≡ without_blank a.broader_terms)
    × (is_given p.retry_tools ≡ mem_agent code_analyst plan.agents)
    × ((t : Text)
        → mem_text t (terms_in p.retry_tools) ≡ (
            mem_agent code_analyst plan.agents
            && (mem_text t a.suggested_tools && not (mem_text t graph_tools))))

-- What `refine_plan` makes of a plan and an assessment, on each of its ends.
unfoldable pub IsRefinement : ExecutionPlan → EvidenceAssessment → Refinement → Type 0
IsRefinement plan a nothing_new = (a.sufficient || not (offers_new plan a)) ≡ true
IsRefinement plan a unroutable =
    (a.sufficient ≡ false)
    × (offers_new plan a ≡ true)
    × ((b : AgentName) → aims_at plan a b ≡ false)
IsRefinement plan a (follow_up p) =
    (a.sufficient ≡ false) × (offers_new plan a ≡ true) × IsFollowUp plan a p

updated-IsRefinement :
    (plan : ExecutionPlan) (a : EvidenceAssessment) (intent : QueryIntent) (agents : List AgentName)
    → a.sufficient ≡ false
    → offers_new plan a ≡ true
    → intent.routing_mode ≡ plan.intent.routing_mode
    → intent.intent ≡ kind_after plan a
    → agents ≡ add_new_agents plan.intent.target_agents a.suggested_agents
    → intent.entities ≡ add_new plan.intent.entities (without_blank a.broader_terms)
    → IsRefinement plan a (
        updated plan a
          (without_blank a.broader_terms)
          (retry_tools_for (mem_agent code_analyst plan.agents) a.suggested_tools)
          (plan_for intent agents))
unfolding updated plan_for IsRefinement IsFollowUp mem_agent
updated-IsRefinement plan a intent [] s n m kind g t = (
  s,
  n,
  λ b.
      sym (mem_agent-add_new b plan.intent.target_agents a.suggested_agents)
      ∙ ap (mem_agent b) (sym g),
)
updated-IsRefinement plan a intent (c ∷ agents) s n m kind g t = (
  s,
  n,
  (
    refl,
    refl,
    m,
    (λ b. ap (mem_agent b) g ∙ mem_agent-add_new b plan.intent.target_agents a.suggested_agents),
    (λ x.
        ap (mem_text x) t
        ∙ add_new-mem_text x plan.intent.entities (without_blank a.broader_terms)),
    kind,
    terms_in-or_absent (without_blank a.broader_terms),
    is_given-retry_tools_for (mem_agent code_analyst plan.agents) a.suggested_tools,
    λ x. terms_in-retry_tools_for x (mem_agent code_analyst plan.agents) a.suggested_tools,
  ),
)

-- For every plan and assessment, `refine_plan` makes no follow-up exactly when the assessment is
-- sufficient or offers nothing new. Else it raises a RoutingError, and then neither the plan's
-- intent nor the assessment names an agent, or it makes the follow-up that `IsFollowUp` describes:
-- the next round, with the plan's agents and entities and with the agents, the terms to search and
-- the tools to retry that the assessment suggests.
pub refine_plan-IsRefinement :
    (plan : ExecutionPlan) (a : EvidenceAssessment) → IsRefinement plan a (refine_plan plan a)
unfolding refine_plan refined_intent route_to_agents IsRefinement
refine_plan-IsRefinement plan a = elim (Bool-cases (a.sufficient || not (has_news plan a))) [
  | inl h ↦
      rw (h, refine_plan)
        (subst (λ x. (a.sufficient || not x) ≡ true) (has_news-offers_new plan a) h)
  | inr h ↦
      rw (h, refine_plan)
        (updated-IsRefinement plan a (refined_intent plan.intent a) _ (ground arith)
          (sym (has_news-offers_new plan a) ∙ ground arith) refl (refined_intent-kind_after plan a)
          refl refl)
]
