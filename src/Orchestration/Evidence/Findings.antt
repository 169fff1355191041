-- ===== src/Orchestration/Evidence/Findings.antt =====
-- core/src/core/orchestration/evidence.py: what the outputs of the agents hold. An output is a JSON
-- value, as `_as_mapping` sees it.
use repo_agent.Prelude.{
  String, Bool, true, false, not, ◌&&◌, ◌||◌, Option, none, some, List, [], ◌∷◌, str_eq,
  if◌then◌else◌,
}
use repo_agent.Prelude.Json.{Json, null, array, object, Items, nil, cons, Fields, truthy, get_field}
use repo_agent.Orchestration.Models.{AgentName, graph_query, code_analyst, same_agent, AgentOutput}
use repo_agent.Orchestration.Loop.{Outputs}

unfoldable pub output_of : AgentName → Outputs Json → Option (AgentOutput Json)
unfolding same_agent
output_of a [] = none
output_of a ((b, o) ∷ outputs) = if same_agent b a then some o else output_of a outputs

-- A degraded note or an error that is not empty.
is_note : Option String → Bool
is_note none = false
is_note (some s) = if str_eq s "" then false else true

unfoldable pub agent_failed : Option (AgentOutput Json) → Bool
unfolding is_note
agent_failed none = false
agent_failed (some o) = if o.ok then is_note o.degraded_note || is_note o.error else true

any_truthy : List String → Fields → Bool
unfolding truthy get_field
any_truthy [] fs = false
any_truthy (k ∷ ks) fs = truthy (get_field k fs) || any_truthy ks fs

unfoldable pub is_entity_hit : Json → Bool
unfolding any_truthy
is_entity_hit (object fs) =
    any_truthy ("qualified_name" ∷ "file_path" ∷ "filePath" ∷ "name" ∷ "path" ∷ []) fs
is_entity_hit v = false

any_item : (Json → Bool) → Items → Bool
any_item p nil = false
any_item p (cons v vs) = p v || any_item p vs

-- isinstance(value, list) and any(...)
unfoldable pub any_in : (Json → Bool) → Json → Bool
unfolding any_item
any_in p (array vs) = any_item p vs
any_in p v = false

entity_found : Json → Bool
unfolding any_in get_field
entity_found (object fs) =
    any_in is_entity_hit (get_field "matches" fs) || is_entity_hit (object fs)
entity_found v = false

hits_in : Json → Bool
unfolding any_in entity_found get_field
hits_in (object fs) =
    any_in is_entity_hit (get_field "candidates" fs)
    || any_in entity_found (get_field "entities" fs)
hits_in v = false

unfoldable pub inner_of : Option (AgentOutput Json) → Json
inner_of none = null
inner_of (some o) = elim o.output [ none ↦ null | some v ↦ v ]

unfoldable pub has_graph_hits : Outputs Json → Bool
unfolding hits_in inner_of output_of
has_graph_hits outputs = hits_in (inner_of (output_of graph_query outputs))

unfoldable pub usable_analysis : Json → Bool
unfolding any_truthy truthy get_field
usable_analysis (object fs) =
    not (truthy (get_field "error" fs))
    && any_truthy
        ("explanation" ∷ "analysis" ∷ "summary" ∷ "text" ∷ "comparison" ∷ "instances" ∷ "pattern"
          ∷ [])
        fs
usable_analysis v = false

unfoldable pub usable_snippet : Json → Bool
unfolding truthy get_field
usable_snippet (object fs) = truthy (get_field "text" fs) && not (truthy (get_field "error" fs))
usable_snippet v = false

-- A list with a usable analysis, or a value that is one.
analysis_under : Fields → String → Bool
unfolding any_in usable_analysis get_field
analysis_under fs k = any_in usable_analysis (get_field k fs) || usable_analysis (get_field k fs)

evidence_in : Json → Bool
unfolding any_in usable_snippet analysis_under get_field
evidence_in (object fs) =
    any_in usable_snippet (get_field "snippets" fs)
    || (analysis_under fs "explanations"
        || (analysis_under fs "function_analyses"
            || (analysis_under fs "comparison" || analysis_under fs "patterns")))
evidence_in v = false

unfoldable pub has_analyst_evidence : Outputs Json → Bool
unfolding evidence_in inner_of output_of
has_analyst_evidence outputs = evidence_in (inner_of (output_of code_analyst outputs))

term_hits : Fields → Json → Bool
unfolding any_item is_entity_hit
term_hits fs (array vs) = any_item is_entity_hit vs
term_hits fs v = is_entity_hit (object fs)

unfoldable pub term_produced_hits : Json → Bool
unfolding term_hits get_field
term_produced_hits (object fs) = term_hits fs (get_field "matches" fs)
term_produced_hits v = false
