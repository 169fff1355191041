-- ===== src/Orchestration/Router/Rules.antt =====
-- core/src/core/orchestration/router.py, `rule_based_route`. The tests of the lowered query are apart
-- from the decision on what they found.
pub mod Decisions
use repo_agent.Prelude.{
  ℕ, ◌+◌, ◌/◌, max, String, Bool, true, false, not, ◌&&◌, ◌||◌, Option, none, some, List, [], ◌∷◌,
  map, ltb, if◌then◌else◌, length,
}
use repo_agent.Prelude.Int.{ℤ, pos, negsuc}
use repo_agent.Prelude.Text.{codes, is_space, after_prefix, skip_spaces, is_word}
use repo_agent.Prelude.Words.{Text, lower, has_text, has_any, has_any_word, ends_word}
use repo_agent.Orchestration.Models.{AgentName, indexer, graph_query, code_analyst, RuleRouteResult}
use repo_agent.Orchestration.Router.Names.{has_referring_expression}

-- What the tests of `rule_based_route` find in a query.
pub record Signals : Type 0 where
  pub explanation : Bool
  pub relationships : Bool
  pub code_examples : Bool
  pub comparison : Bool
  pub indexing : Bool
  pub pattern_word : Bool
  pub lookup_word : Bool

-- \s+ between two words
after_spaces : Option Text → Option Text
unfolding is_space skip_spaces
after_spaces none = none
after_spaces (some []) = none
after_spaces (some (c ∷ s)) = if is_space c then some (skip_spaces s) else none

after_word : Text → Option Text → Option Text
unfolding after_prefix
after_word w none = none
after_word w (some s) = after_prefix w s

-- patterns?, decorators?, dependency\s+injections? and factor(?:y|ies), each up to a \b.
pattern_here : Text → Bool
unfolding after_word after_spaces ends_word
pattern_here s =
    ends_word (after_word (codes "pattern") (some s))
    || (ends_word (after_word (codes "patterns") (some s))
        || (ends_word (after_word (codes "decorator") (some s))
            || (ends_word (after_word (codes "decorators") (some s))
                || (ends_word (
                      after_word (codes "injection")
                        (after_spaces (after_word (codes "dependency") (some s))))
                    || (ends_word (
                          after_word (codes "injections")
                            (after_spaces (after_word (codes "dependency") (some s))))
                        || (ends_word (after_word (codes "factory") (some s))
                            || ends_word (after_word (codes "factories") (some s))))))))

pattern_from : Bool → Text → Bool
unfolding pattern_here is_word
pattern_from inner [] = false
pattern_from inner (c ∷ s) = (not inner && pattern_here (c ∷ s)) || pattern_from (is_word c) s

-- ^(what is|where is|find|show|list)\b
starts_lookup : Text → Bool
unfolding after_prefix ends_word
starts_lookup s =
    ends_word (after_prefix (codes "what is") s)
    || (ends_word (after_prefix (codes "where is") s)
        || (ends_word (after_prefix (codes "find") s)
            || (ends_word (after_prefix (codes "show") s)
                || ends_word (after_prefix (codes "list") s))))

unfoldable pub signals_of : Text → Signals
unfolding has_any has_any_word has_text pattern_from starts_lookup
signals_of lowered = record {
  explanation = has_any (codes "explain" ∷ codes "how does" ∷ codes "why" ∷ []) lowered;
  relationships =
      has_any
        (codes "who calls"
          ∷ codes "depends on"
          ∷ codes "who depends"
          ∷ codes "dependents"
          ∷ codes "inherit"
          ∷ codes "extends"
          ∷ codes "subclass"
          ∷ [])
        lowered
      || has_any_word (codes "import" ∷ codes "imports" ∷ codes "uses" ∷ []) lowered;
  code_examples =
      has_any
        (codes "example"
          ∷ codes "examples"
          ∷ codes "implementation"
          ∷ codes "implemented"
          ∷ codes "codebase"
          ∷ codes "source"
          ∷ codes "snippet"
          ∷ [])
        lowered;
  comparison = has_text (codes "compare") lowered;
  indexing = has_any_word (codes "index" ∷ codes "reindex" ∷ []) lowered;
  pattern_word = pattern_from false lowered;
  lookup_word =
      starts_lookup lowered
      || has_any (codes "what classes" ∷ codes "what functions" ∷ codes "what modules" ∷ [])
          lowered;
}

-- A matched rule, which is also its category.
pub data Rule : Type 0 where
  index_rule relationship_rule lookup_rule compare_rule explain_rule examples_rule pattern_rule :
      Rule

unfoldable pub rule_name : Rule → String
rule_name index_rule = "index"
rule_name relationship_rule = "relationship"
rule_name lookup_rule = "lookup"
rule_name compare_rule = "compare"
rule_name explain_rule = "explain"
rule_name examples_rule = "examples"
rule_name pattern_rule = "pattern"

unfoldable pub when : Bool → Rule → List Rule → List Rule
when true r rs = r ∷ rs
when false r rs = rs

-- if not matched_rules and _has_referring_expression(query)
unfoldable pub or_referring : Bool → List Rule → List Rule
or_referring true [] = lookup_rule ∷ []
or_referring referring rs = rs

-- The rules in the order of the tests; with a pattern an explanation is dropped.
unfoldable pub matched_rules : Signals → Bool → List Rule
unfolding when or_referring
matched_rules s referring = or_referring referring (
    when s.indexing index_rule (
      when s.relationships relationship_rule (
        when s.lookup_word lookup_rule (
          when s.comparison compare_rule (
            when (s.explanation && not s.pattern_word) explain_rule
              (when s.code_examples examples_rule (when s.pattern_word pattern_rule [])))))))

-- categories - {"lookup"}
unfoldable pub compatible : List Rule → List Rule
compatible [] = []
compatible (lookup_rule ∷ rs) = compatible rs
compatible (r ∷ rs) = r ∷ compatible rs

unfoldable pub targets_of : Rule → List AgentName
targets_of index_rule = indexer ∷ []
targets_of lookup_rule = graph_query ∷ []
targets_of relationship_rule = graph_query ∷ []
targets_of pattern_rule = code_analyst ∷ []
targets_of _ = graph_query ∷ code_analyst ∷ []

unfoldable pub ambiguous_route : List Rule → RuleRouteResult
unfolding rule_name
ambiguous_route rs = record {
  target_agents = [];
  matched_rules = map rule_name rs;
  ambiguous = true;
}

unfoldable pub route_of : Rule → List Rule → RuleRouteResult
unfolding targets_of rule_name
route_of r rs = record {
  target_agents = targets_of r;
  matched_rules = map rule_name rs;
  ambiguous = false;
}

unfoldable pub choose_route : List Rule → List Rule → RuleRouteResult
unfolding route_of ambiguous_route
choose_route rs [] = route_of lookup_rule rs
choose_route rs (r ∷ []) = route_of r rs
choose_route rs (r ∷ s ∷ more) = ambiguous_route rs

unfoldable pub decide : List Rule → RuleRouteResult
unfolding choose_route compatible ambiguous_route
decide [] = ambiguous_route []
decide (r ∷ rs) = choose_route (r ∷ rs) (compatible (r ∷ rs))

-- max(1, (len(query) + 3) // 4) if query else 0
unfoldable pub estimated_query_tokens : Text → ℕ
estimated_query_tokens [] = 0
estimated_query_tokens (c ∷ s) = max 1 ((length (c ∷ s) + 3) / 4)

unfoldable pub exceeds : ℕ → ℤ → Bool
exceeds n (pos k) = ltb k n
exceeds n (negsuc k) = true

unfoldable pub rule_based_route : ℤ → Text → RuleRouteResult
unfolding exceeds estimated_query_tokens decide matched_rules signals_of has_referring_expression
    lower
rule_based_route rules_max_query_tokens query =
    if exceeds (estimated_query_tokens query) rules_max_query_tokens
    then record { target_agents = []; matched_rules = "too_long" ∷ []; ambiguous = true }
    else decide (matched_rules (signals_of (lower query)) (has_referring_expression query))
