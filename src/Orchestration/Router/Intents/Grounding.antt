-- ===== src/Orchestration/Router/Intents/Grounding.antt =====
-- core/src/core/orchestration/router.py: the order of the agents, and what `normalize_grounded_intent`
-- makes of an intent.
use repo_agent.Prelude.{
  ◌≡◌, refl, sym, ap, ◌∙◌, Bool, true, false, not, ◌&&◌, List, [], ◌∷◌, ◌++◌, arith, if◌then◌else◌,
}
use repo_agent.Orchestration.Models.{
  AgentName, indexer, graph_query, code_analyst, memory, same_agent, mem_agent, IntentKind,
  lookup_kind, relationship_kind, explanation_kind, pattern_kind, comparison_kind, indexing_kind,
  mixed_kind, QueryIntent,
}
use repo_agent.Orchestration.Router.Names.{wants_codebase_grounding}
use repo_agent.Prelude.Words.{Text}
use repo_agent.Orchestration.Router.Intents.{
  grounded_agents, grounded_kind, normalize_grounded_intent, agent_order, in_order, add_agents,
  ordered_agents, grounded_agents, grounded_kind, normalize_grounded_intent, with_agent, Text,
  wants_codebase_grounding,
}

keep : Bool → AgentName → List AgentName → List AgentName
keep true a xs = a ∷ xs
keep false a xs = xs

-- The agents of which the tests hold, in the order of _AGENT_ORDER.
unfoldable pub canonical : Bool → Bool → Bool → Bool → List AgentName
unfolding keep
canonical i g c m = keep i indexer (keep g graph_query (keep c code_analyst (keep m memory [])))

chosen : Bool → AgentName → List AgentName → List AgentName
unfolding mem_agent
chosen b a ordered = if b && not (mem_agent a ordered) then ordered ++ a ∷ [] else ordered

chosen-canonical :
    (i g c m : Bool)
    → chosen m memory (chosen c code_analyst (chosen g graph_query (chosen i indexer [])))
      ≡ canonical i g c m
unfolding chosen canonical
chosen-canonical i g c m = ground arith

in_order-canonical :
    (xs : List AgentName)
    → in_order agent_order xs []
      ≡ canonical
          (mem_agent indexer xs)
          (mem_agent graph_query xs)
          (mem_agent code_analyst xs)
          (mem_agent memory xs)
unfolding in_order chosen
in_order-canonical xs =
    chosen-canonical (mem_agent indexer xs) (mem_agent graph_query xs) (mem_agent code_analyst xs)
      (mem_agent memory xs)

-- The test of an agent among four.
test_of : AgentName → Bool → Bool → Bool → Bool → Bool
test_of indexer i g c m = i
test_of graph_query i g c m = g
test_of code_analyst i g c m = c
test_of memory i g c m = m

mem_agent-canonical :
    (a : AgentName) (i g c m : Bool) → mem_agent a (canonical i g c m) ≡ test_of a i g c m
unfolding canonical mem_agent test_of
mem_agent-canonical indexer i g c m = ground arith
mem_agent-canonical graph_query i g c m = ground arith
mem_agent-canonical code_analyst i g c m = ground arith
mem_agent-canonical memory i g c m = ground arith

test_of_mem :
    (a : AgentName) (xs : List AgentName)
    → test_of a
        (mem_agent indexer xs)
        (mem_agent graph_query xs)
        (mem_agent code_analyst xs)
        (mem_agent memory xs)
      ≡ mem_agent a xs
unfolding test_of
test_of_mem indexer xs = refl
test_of_mem graph_query xs = refl
test_of_mem code_analyst xs = refl
test_of_mem memory xs = refl

-- Every agent of the list stands in the other.
Covered : List AgentName → List AgentName → Type 0
Covered [] ordered = Unit
Covered (a ∷ xs) ordered = (mem_agent a ordered ≡ true) × Covered xs ordered

add_agents_none :
    (xs ordered : List AgentName) → Covered xs ordered → add_agents xs ordered ≡ ordered
unfolding add_agents Covered
add_agents_none [] ordered h = refl
add_agents_none (a ∷ xs) ordered (h, hs) = rw (h, add_agents) (add_agents_none xs ordered hs)

same_agent_refl : (a : AgentName) → same_agent a a ≡ true
unfolding same_agent
same_agent_refl indexer = refl
same_agent_refl graph_query = refl
same_agent_refl code_analyst = refl
same_agent_refl memory = refl

Covered-mem_agent :
    (xs bs : List AgentName)
    → ((a : AgentName) → mem_agent a xs ≡ true → mem_agent a bs ≡ true)
    → Covered xs bs
unfolding Covered mem_agent
Covered-mem_agent [] bs h = tt
Covered-mem_agent (a ∷ xs) bs h =
    (h a (ground (arith, same_agent_refl a)), Covered-mem_agent xs bs (λ b m. h b (ground arith)))

-- `_ordered_agents` keeps the agents that it is given, each once, in the order of _AGENT_ORDER.
pub ordered_agents-canonical :
    (xs : List AgentName)
    → ordered_agents xs
      ≡ canonical
          (mem_agent indexer xs)
          (mem_agent graph_query xs)
          (mem_agent code_analyst xs)
          (mem_agent memory xs)
unfolding ordered_agents
ordered_agents-canonical xs =
    let there = in_order-canonical xs in
    add_agents_none xs (in_order agent_order xs []) (
      Covered-mem_agent xs (in_order agent_order xs []) (λ a h. rw there (
        mem_agent-canonical a (mem_agent indexer xs) (mem_agent graph_query xs)
          (mem_agent code_analyst xs) (mem_agent memory xs)
        ∙ (test_of_mem a xs ∙ h))))
    ∙ there

with_graph_query :
    (i g c m : Bool) → with_agent graph_query (canonical i g c m) ≡ canonical i true c m
unfolding with_agent canonical mem_agent ordered_agents in_order add_agents
with_graph_query i g c m = ground arith

with_code_analyst :
    (i g c m : Bool) → with_agent code_analyst (canonical i g c m) ≡ canonical i g true m
unfolding with_agent canonical mem_agent ordered_agents in_order add_agents
with_code_analyst i g c m = ground arith

grounded_agents-canonical :
    (xs : List AgentName)
    → grounded_agents xs ≡ canonical (mem_agent indexer xs) true true (mem_agent memory xs)
unfolding grounded_agents
grounded_agents-canonical xs =
    let i = mem_agent indexer xs in
    let m = mem_agent memory xs in
    ap (λ ys. with_agent code_analyst (with_agent graph_query ys)) (ordered_agents-canonical xs)
    ∙ (ap (with_agent code_analyst)
          (with_graph_query i (mem_agent graph_query xs) (mem_agent code_analyst xs) m)
        ∙ with_code_analyst i true (mem_agent code_analyst xs) m)

mem_grounded :
    (a : AgentName) (xs : List AgentName)
    → mem_agent a (grounded_agents xs)
      ≡ test_of a (mem_agent indexer xs) true true (mem_agent memory xs)
mem_grounded a xs =
    rw (grounded_agents-canonical xs)
      (mem_agent-canonical a (mem_agent indexer xs) true true (mem_agent memory xs))

grounded_twice : (xs : List AgentName) → grounded_agents (grounded_agents xs) ≡ grounded_agents xs
unfolding test_of
grounded_twice xs =
    grounded_agents-canonical (grounded_agents xs)
    ∙ (ap (λ i. canonical i true true (mem_agent memory (grounded_agents xs)))
          (mem_grounded indexer xs)
        ∙ (ap (canonical (mem_agent indexer xs) true true) (mem_grounded memory xs)
            ∙ sym (grounded_agents-canonical xs)))

-- A kind that asks for the graph and for the analyst.
unfoldable pub IsGroundedKind : IntentKind → Type 0
IsGroundedKind explanation_kind = Unit
IsGroundedKind comparison_kind = Unit
IsGroundedKind mixed_kind = Unit
IsGroundedKind kind = ⊥

grounded_kind-IsGroundedKind :
    (k : IntentKind) (xs : List AgentName) → IsGroundedKind (grounded_kind k (grounded_agents xs))
unfolding grounded_kind IsGroundedKind test_of
grounded_kind-IsGroundedKind indexing_kind xs = rw (mem_grounded graph_query xs) tt
grounded_kind-IsGroundedKind lookup_kind xs = tt
grounded_kind-IsGroundedKind pattern_kind xs = tt
grounded_kind-IsGroundedKind relationship_kind xs = rw (mem_grounded code_analyst xs) tt
grounded_kind-IsGroundedKind explanation_kind xs = tt
grounded_kind-IsGroundedKind comparison_kind xs = tt
grounded_kind-IsGroundedKind mixed_kind xs = tt

grounded_stays : (k : IntentKind) (xs : List AgentName) → IsGroundedKind k → grounded_kind k xs ≡ k
unfolding grounded_kind IsGroundedKind
grounded_stays explanation_kind xs g = refl
grounded_stays comparison_kind xs g = refl
grounded_stays mixed_kind xs g = refl
grounded_stays lookup_kind xs g = absurd g
grounded_stays relationship_kind xs g = absurd g
grounded_stays pattern_kind xs g = absurd g
grounded_stays indexing_kind xs g = absurd g

-- When a query asks for code, the normalised intent targets the graph and the analyst, with the other
-- agents that it targeted, in order and once each, its kind is one that asks for both, and to
-- normalise it again changes nothing.
pub normalize_grounded_intent-grounds :
    (intent : QueryIntent) (query : Text)
    → wants_codebase_grounding query ≡ true
    → let r = normalize_grounded_intent intent query in
      (r.target_agents
        ≡ canonical
            (mem_agent indexer intent.target_agents)
            true
            true
            (mem_agent memory intent.target_agents))
      × IsGroundedKind r.intent
      × (normalize_grounded_intent r query ≡ r)
unfolding normalize_grounded_intent
normalize_grounded_intent-grounds intent query wanted =
    let k = grounded_kind-IsGroundedKind intent.intent intent.target_agents in
    rw wanted (
      grounded_agents-canonical intent.target_agents,
      k,
      ap
            (λ ys. record intent {
              target_agents = ys;
              intent =
                  grounded_kind (grounded_kind intent.intent (grounded_agents intent.target_agents))
                    ys;
            })
            (grounded_twice intent.target_agents)
          ∙ ap
              (λ kind. record intent {
                target_agents = grounded_agents intent.target_agents;
                intent = kind;
              })
              (grounded_stays (grounded_kind intent.intent (grounded_agents intent.target_agents))
                (grounded_agents intent.target_agents) k),
    )
