-- ===== src/Orchestration/Router/Rules/Decisions.antt =====
-- core/src/core/orchestration/router.py, `rule_based_route`: which agents and which kind of intent it
-- decides for.
use repo_agent.Prelude.{◌≡◌, subst, ◌≢◌, Bool, true, false, List, [], ◌∷◌, if◌then◌else◌}
use repo_agent.Prelude.Int.{ℤ}
use repo_agent.Prelude.Words.{Text, lower}
use repo_agent.Orchestration.Models.{RuleRouteResult}
use repo_agent.Orchestration.Router.Names.{has_referring_expression}
use repo_agent.Orchestration.Router.Rules.{
  Rule, index_rule, relationship_rule, lookup_rule, compare_rule, explain_rule, examples_rule,
  pattern_rule, matched_rules, compatible, targets_of, ambiguous_route, route_of, choose_route,
  decide, signals_of, estimated_query_tokens, exceeds, rule_based_route,
}

clash : true ≡ false → ⊥
clash e = subst (λ b. if b then Unit else ⊥) e tt

targets_some : (r : Rule) → targets_of r ≢ []
unfolding targets_of
targets_some index_rule = λ e. cc
targets_some lookup_rule = λ e. cc
targets_some relationship_rule = λ e. cc
targets_some pattern_rule = λ e. cc
targets_some compare_rule = λ e. cc
targets_some explain_rule = λ e. cc
targets_some examples_rule = λ e. cc

choose-targets :
    (rs cs : List Rule)
    → (choose_route rs cs).ambiguous ≡ false
    → (choose_route rs cs).target_agents ≢ []
unfolding choose_route route_of ambiguous_route
choose-targets rs [] h = targets_some lookup_rule
choose-targets rs (r ∷ []) h = targets_some r
choose-targets rs (r ∷ s ∷ more) h = absurd (clash h)

decide-targets : (rs : List Rule) → (decide rs).ambiguous ≡ false → (decide rs).target_agents ≢ []
unfolding decide ambiguous_route
decide-targets [] h = absurd (clash h)
decide-targets (r ∷ rs) h = choose-targets (r ∷ rs) (compatible (r ∷ rs)) h

long_route : RuleRouteResult
long_route = record { target_agents = []; matched_rules = "too_long" ∷ []; ambiguous = true }

route_if :
    (b : Bool) (r : RuleRouteResult)
    → (r.ambiguous ≡ false → r.target_agents ≢ [])
    → (if b then long_route else r).ambiguous ≡ false
    → (if b then long_route else r).target_agents ≢ []
unfolding long_route
route_if true r p h = absurd (clash h)
route_if false r p h = p h

-- A route that is not ambiguous has an agent to target.
pub route-targets :
    (max_tokens : ℤ) (query : Text)
    → (rule_based_route max_tokens query).ambiguous ≡ false
    → (rule_based_route max_tokens query).target_agents ≢ []
unfolding rule_based_route long_route
route-targets max_tokens query h =
    route_if (exceeds (estimated_query_tokens query) max_tokens) _
      (decide-targets (matched_rules (signals_of (lower query)) (has_referring_expression query))) h
