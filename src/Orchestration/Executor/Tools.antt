-- ===== src/Orchestration/Executor/Tools.antt =====
-- core/src/core/orchestration/executor.py: the tools that an intent calls for.
use repo_agent.Prelude.{
  Bool, true, false, not, ◌&&◌, ◌||◌, Option, none, some, List, [], ◌∷◌, ◌++◌, if◌then◌else◌,
}
use repo_agent.Prelude.Text.{codes}
use repo_agent.Prelude.Words.{Text, lower, has_text, has_any, has_any_word, has_word, mem_text}
use repo_agent.Orchestration.Models.{
  AgentName, indexer, graph_query, code_analyst, IntentKind, lookup_kind, relationship_kind,
  explanation_kind, pattern_kind, comparison_kind, indexing_kind, mixed_kind, QueryIntent,
}

abbrev pub find_entity : Text
find_entity = codes "find_entity"

abbrev pub get_dependencies : Text
get_dependencies = codes "get_dependencies"

abbrev pub get_dependents : Text
get_dependents = codes "get_dependents"

abbrev pub trace_imports : Text
trace_imports = codes "trace_imports"

abbrev pub find_related : Text
find_related = codes "find_related"

abbrev pub get_code_snippet : Text
get_code_snippet = codes "get_code_snippet"

abbrev pub explain_implementation : Text
explain_implementation = codes "explain_implementation"

abbrev pub analyze_function : Text
analyze_function = codes "analyze_function"

abbrev pub analyze_class : Text
analyze_class = codes "analyze_class"

abbrev pub compare_implementations : Text
compare_implementations = codes "compare_implementations"

abbrev pub find_patterns : Text
find_patterns = codes "find_patterns"

abbrev pub index_repository : Text
index_repository = codes "index_repository"

-- The tools of an agent: `first` runs before `parallel`.
pub record ToolPlan : Type 0 where
  pub first : List Text
  pub parallel : List Text

abbrev no_tools : ToolPlan
no_tools = record { first = []; parallel = [] }

-- INTENT_TOOL_MAP
unfoldable pub intent_tools : IntentKind → AgentName → ToolPlan
intent_tools lookup_kind graph_query = record { first = find_entity ∷ []; parallel = [] }
intent_tools lookup_kind code_analyst = record {
  first = [];
  parallel = get_code_snippet ∷ analyze_class ∷ [];
}
intent_tools relationship_kind graph_query = record {
  first = find_entity ∷ [];
  parallel = get_dependencies ∷ get_dependents ∷ trace_imports ∷ find_related ∷ [];
}
intent_tools explanation_kind graph_query = record { first = find_entity ∷ []; parallel = [] }
intent_tools explanation_kind code_analyst = record {
  first = [];
  parallel = explain_implementation ∷ analyze_function ∷ analyze_class ∷ get_code_snippet ∷ [];
}
intent_tools comparison_kind graph_query = record { first = find_entity ∷ []; parallel = [] }
intent_tools comparison_kind code_analyst = record {
  first = [];
  parallel = compare_implementations ∷ [];
}
intent_tools pattern_kind code_analyst = record { first = []; parallel = find_patterns ∷ [] }
intent_tools indexing_kind indexer = record { first = []; parallel = index_repository ∷ [] }
intent_tools mixed_kind graph_query = record {
  first = find_entity ∷ [];
  parallel = get_dependencies ∷ get_dependents ∷ trace_imports ∷ find_related ∷ [];
}
intent_tools mixed_kind code_analyst = record {
  first = [];
  parallel = get_code_snippet ∷ explain_implementation ∷ analyze_function ∷ analyze_class ∷ [];
}
intent_tools kind agent = no_tools

unfoldable pub wants_comparison : Text → Bool
unfolding has_text lower
wants_comparison query = has_text (codes "compare") (lower query)

one_tool : Bool → Text → List Text
one_tool true t = t ∷ []
one_tool false t = []

unfoldable pub relationship_tools_for_query : Text → List Text
unfolding one_tool has_any has_word has_any_word has_text lower
relationship_tools_for_query query =
    let lowered = lower query in
    let dependents =
      has_text (codes "who depends") lowered
      || has_any_word (codes "dependent" ∷ codes "dependents" ∷ codes "depends on them" ∷ [])
          lowered in
    (if dependents
      then get_dependents ∷ []
      else one_tool (has_any_word (codes "depends on" ∷ codes "uses" ∷ []) lowered)
          get_dependencies)
    ++ (one_tool (has_any_word (codes "import" ∷ codes "imports" ∷ []) lowered) trace_imports
        ++ one_tool
            (has_any (codes "inherit" ∷ codes "extends" ∷ codes "subclass" ∷ codes "who calls" ∷ [])
                lowered
              || has_word (codes "called by") lowered)
            find_related)

compares : IntentKind → Bool
compares comparison_kind = true
compares mixed_kind = true
compares kind = false

compared_tools : AgentName → Text → ToolPlan → ToolPlan
unfolding relationship_tools_for_query
compared_tools graph_query query other = record {
  first = find_entity ∷ [];
  parallel = relationship_tools_for_query query;
}
compared_tools code_analyst query other = record {
  first = [];
  parallel = compare_implementations ∷ [];
}
compared_tools agent query other = other

unfoldable pub tool_plan : IntentKind → AgentName → Text → ToolPlan
unfolding wants_comparison compares compared_tools intent_tools
tool_plan kind agent query =
    if wants_comparison query && compares kind
    then compared_tools agent query (intent_tools kind agent)
    else intent_tools kind agent

pub data Relation : Type 0 where
  inherits_from calls imports depends_on : Relation

unfoldable pub related_relationship_type : Text → Option Relation
unfolding has_any has_word has_any_word has_text lower
related_relationship_type query =
    let lowered = lower query in
    if has_any (codes "inherit" ∷ codes "extends" ∷ codes "subclass" ∷ []) lowered
    then some inherits_from
    else if has_text (codes "who calls") lowered || has_word (codes "called by") lowered
    then some calls
    else if has_any_word (codes "import" ∷ codes "imports" ∷ []) lowered
    then some imports
    else if has_any_word
        (codes "depends on" ∷ codes "dependent" ∷ codes "dependents" ∷ codes "uses" ∷ []) lowered
    then some depends_on
    else none

-- The tools that need a name which the graph has resolved.
abbrev entity_tools : List Text
entity_tools =
    get_code_snippet ∷ explain_implementation ∷ analyze_function ∷ analyze_class
    ∷ compare_implementations ∷ []

any_entity_tool : List Text → Bool
unfolding mem_text
any_entity_tool [] = false
any_entity_tool (t ∷ ts) = mem_text t entity_tools || any_entity_tool ts

unfoldable pub code_analyst_can_start_now : QueryIntent → Text → Bool
unfolding tool_plan any_entity_tool mem_text
code_analyst_can_start_now intent query =
    let parallel = (tool_plan intent.intent code_analyst query).parallel in
    not (any_entity_tool parallel) && mem_text find_patterns parallel
