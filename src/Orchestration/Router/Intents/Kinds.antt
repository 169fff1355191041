-- ===== src/Orchestration/Router/Intents/Kinds.antt =====
-- core/src/core/orchestration/router.py: the kind of intent that the rules give.
use repo_agent.Prelude.{
  ℕ, zero, suc, ◌+◌, String, ◌≡◌, refl, ap, ◌∙◌, Bool, true, false, not, ◌&&◌, ◌||◌, Option, none,
  some, List, [], arith, if◌then◌else◌,
}
use repo_agent.Orchestration.Models.{
  IntentKind, lookup_kind, relationship_kind, explanation_kind, pattern_kind, comparison_kind,
  indexing_kind, RuleRouteResult,
}
use repo_agent.Orchestration.Router.Rules.{
  Signals, rule_name, when, or_referring, matched_rules, compatible, targets_of, ambiguous_route,
  route_of, choose_route, decide, signals_of, exceeds, estimated_query_tokens, rule_based_route,
}
use repo_agent.Orchestration.Router.Intents.{has_rule, kind_by, kind_of_route, rule_based_route}
use repo_agent.Orchestration.Router.Names.{has_referring_expression}
use repo_agent.Prelude.Words.{Text, lower}
use repo_agent.Prelude.Int.{ℤ}

one_if : Bool → ℕ
one_if true = 1
one_if false = 0

-- How many kinds of request a query makes, where an explanation that comes with a pattern is none and
-- a bare lookup is none.
unfoldable pub requests : Signals → ℕ
unfolding one_if
requests s =
    one_if s.indexing
    + one_if s.relationships
    + one_if s.comparison
    + one_if (s.explanation && not s.pattern_word)
    + one_if s.code_examples
    + one_if s.pattern_word

-- The kind of the first request that is met.
unfoldable pub requested_kind : Signals → IntentKind
requested_kind s =
    if s.indexing
    then indexing_kind
    else if s.pattern_word
    then pattern_kind
    else if s.comparison
    then comparison_kind
    else if s.explanation || s.code_examples
    then explanation_kind
    else if s.relationships
    then relationship_kind
    else lookup_kind

-- The kind of a query by the number of its requests: none if it is unclear.
unfoldable pub kind_by_count : ℕ → Bool → IntentKind → Option IntentKind
kind_by_count zero looks_up kind = if looks_up then some lookup_kind else none
kind_by_count (suc zero) looks_up kind = some kind
kind_by_count (suc (suc n)) looks_up kind = none

unfoldable pub kind_if_clear : RuleRouteResult → Option IntentKind
kind_if_clear r = if r.ambiguous then none else some (kind_of_route r)

decide-kind :
    (s : Signals) (referring : Bool)
    → kind_if_clear (decide (matched_rules s referring))
      ≡ kind_by_count (requests s) (s.lookup_word || referring) (requested_kind s)
unfolding requests one_if requested_kind decide matched_rules when or_referring compatible
    targets_of ambiguous_route route_of choose_route rule_name has_rule kind_by kind_of_route
    kind_by_count kind_if_clear
decide-kind s referring = ground arith

too_long_kind :
    (b : Bool) (r : RuleRouteResult) (tags : List String)
    → kind_if_clear
        (if b then record { target_agents = []; matched_rules = tags; ambiguous = true } else r)
      ≡ (if b then none else kind_if_clear r)
unfolding kind_if_clear
too_long_kind true r tags = refl
too_long_kind false r tags = refl

-- The rules agree with a count: a query that is not too long has the kind of its request when it
-- makes exactly one, is a lookup when it makes none but looks something up or refers to something
-- said, and its route is ambiguous otherwise, as it is when the query is too long.
pub rule_based_route-kind :
    (max_tokens : ℤ) (query : Text)
    → let s = signals_of (lower query) in
      kind_if_clear (rule_based_route max_tokens query) ≡ (
        if exceeds (estimated_query_tokens query) max_tokens
        then none
        else kind_by_count
            (requests s)
            (s.lookup_word || has_referring_expression query)
            (requested_kind s))
unfolding rule_based_route
rule_based_route-kind max_tokens query =
    too_long_kind (exceeds (estimated_query_tokens query) max_tokens) _ _
    ∙ ap (λ k. if exceeds (estimated_query_tokens query) max_tokens then none else k)
        (decide-kind (signals_of (lower query)) (has_referring_expression query))
