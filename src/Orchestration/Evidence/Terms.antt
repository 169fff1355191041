-- ===== src/Orchestration/Evidence/Terms.antt =====
-- core/src/core/orchestration/evidence.py: the terms to search for next, and the tools to call again.
-- `str_of` is Python's `str` of a JSON value.
use repo_agent.Prelude.{
  ℕ, zero, suc, String, Bool, true, false, not, ◌&&◌, ◌||◌, Option, none, some, List, [], ◌∷◌, ◌++◌,
  map, leb, ◌==◌, if◌then◌else◌, length,
}
use repo_agent.Prelude.Text.{is_space, is_upper, is_lower, is_digit, is_word}
use repo_agent.Prelude.Words.{Text, lower, strip, mem_text}
use repo_agent.Prelude.Json.{Json, array, object, Items, nil, cons, get_field}
use repo_agent.Orchestration.Models.{
  graph_query, code_analyst, mem_agent, AgentOutput, ExecutionPlan,
}
use repo_agent.Orchestration.Loop.{Outputs}
use repo_agent.Orchestration.Router.Names.{retrieval_search_terms}
use repo_agent.Orchestration.Executor.Tools.{
  get_code_snippet, explain_implementation, analyze_function, analyze_class,
  compare_implementations, find_patterns, tool_plan,
}
use repo_agent.Orchestration.Evidence.Findings.{
  output_of, agent_failed, any_in, inner_of, has_graph_hits, usable_analysis, usable_snippet,
  term_produced_hits,
}
use repo_agent.Orchestration.Evidence.Stopwords.{refinement_stopwords}
use repo_agent.Orchestration.Router.Fillers.{lookup_filler}

is_blank : Text → Bool
unfolding strip
is_blank t = elim (strip t) [ [] ↦ true | ◌∷◌ c s ↦ false ]

unfoldable pub without_blank : List Text → List Text
unfolding is_blank
without_blank [] = []
without_blank (t ∷ ts) = if is_blank t then without_blank ts else t ∷ without_blank ts

module _ (str_of : Json → Text) where
  texts_of : Items → List Text
  texts_of nil = []
  texts_of (cons v vs) = str_of v ∷ texts_of vs

  queried_in : Json → List Text
  unfolding texts_of
  queried_in (array vs) = texts_of vs
  queried_in v = []

  queried_entities : Json → List Text
  unfolding queried_in get_field
  queried_entities (object fs) = queried_in (get_field "queried_entities" fs)
  queried_entities v = []

  or_none : Option (List Text) → List Text
  or_none none = []
  or_none (some ts) = ts

  unfoldable pub tried_terms : ExecutionPlan → Outputs Json → List Text
  unfolding or_none queried_entities inner_of output_of
  tried_terms plan outputs =
      or_none plan.search_terms
      ++ (plan.intent.entities ++ queried_entities (inner_of (output_of graph_query outputs)))

  items_under : Json → String → Items
  unfolding get_field
  items_under (object fs) k = elim (get_field k fs) [ array vs ↦ vs | _ ↦ nil ]
  items_under v k = nil

  -- The terms whose result has hits, if there is a result for each term.
  paired : List Text → Items → Option (List Text)
  unfolding term_produced_hits
  paired [] nil = some []
  paired [] (cons v vs) = none
  paired (t ∷ ts) nil = none
  paired (t ∷ ts) (cons v vs) = elim (paired ts vs) [
    | none ↦ none
    | some kept ↦ some (if term_produced_hits v then t ∷ kept else kept)
  ]

  or_terms : Option (List Text) → List Text → List Text
  or_terms none other = other
  or_terms (some []) other = other
  or_terms (some (t ∷ ts)) other = t ∷ ts

  -- The terms of the plan, where nothing was queried.
  planned_terms : Option (List Text) → List Text → List Text
  unfolding without_blank
  planned_terms none entities = without_blank entities
  planned_terms (some []) entities = without_blank entities
  planned_terms (some (t ∷ ts)) entities = without_blank (t ∷ ts)

  kept_terms : List Text → Items → ExecutionPlan → List Text
  unfolding or_terms paired planned_terms
  kept_terms [] entities plan = planned_terms plan.search_terms plan.intent.entities
  kept_terms (t ∷ ts) entities plan = or_terms (paired (t ∷ ts) entities) (t ∷ ts)

  unfoldable pub successful_search_terms : ExecutionPlan → Outputs Json → List Text
  unfolding kept_terms without_blank queried_entities items_under inner_of output_of has_graph_hits
  successful_search_terms plan outputs =
      let inner = inner_of (output_of graph_query outputs) in
      if has_graph_hits outputs
      then kept_terms (without_blank (queried_entities inner)) (items_under inner "entities") plan
      else []

-- item.split(".", 1)[1], or none without a dot
unfoldable pub after_dot : Text → Option Text
after_dot [] = none
after_dot (c ∷ s) = if c == b'.' then some s else after_dot s

invoked_name : Text → Option Text → List Text
invoked_name item (some name) = name ∷ []
invoked_name [] none = []
invoked_name (c ∷ s) none = (c ∷ s) ∷ []

names_of : List Text → List Text
unfolding invoked_name after_dot
names_of [] = []
names_of (t ∷ ts) = invoked_name t (after_dot t) ++ names_of ts

unfoldable pub invoked_tool_names : Option (AgentOutput Json) → List Text
unfolding names_of
invoked_tool_names none = []
invoked_tool_names (some o) = names_of o.tools_invoked

-- _ANALYST_TOOL_BUCKETS
bucket_of : Text → Option String
unfolding mem_text
bucket_of tool =
    if mem_text tool (explain_implementation ∷ [])
    then some "explanations"
    else if mem_text tool (analyze_function ∷ [])
    then some "function_analyses"
    else if mem_text tool (analyze_class ∷ [])
    then some "class_analyses"
    else if mem_text tool (get_code_snippet ∷ [])
    then some "snippets"
    else if mem_text tool (compare_implementations ∷ [])
    then some "comparison"
    else if mem_text tool (find_patterns ∷ [])
    then some "patterns"
    else none

analysis_done : Json → Bool
unfolding any_in usable_analysis
analysis_done (array vs) = any_in usable_analysis (array vs)
analysis_done v = usable_analysis v

succeeded_in : Text → Json → Bool
unfolding any_in usable_snippet analysis_done
succeeded_in tool v =
    if mem_text tool (get_code_snippet ∷ []) then any_in usable_snippet v else analysis_done v

unfoldable pub analyst_tool_succeeded : Text → Json → Bool
unfolding bucket_of succeeded_in get_field
analyst_tool_succeeded tool (object fs) = elim (bucket_of tool) [
  | none ↦ false
  | some bucket ↦ succeeded_in tool (get_field bucket fs)
]
analyst_tool_succeeded tool v = false

failed_among : List Text → Json → (Text → Bool) → List Text
unfolding analyst_tool_succeeded
failed_among [] inner due = []
failed_among (t ∷ ts) inner due =
    let rest = failed_among ts inner due in
    if not (analyst_tool_succeeded t inner) && due t then t ∷ rest else rest

unfoldable pub failed_analyst_tools : Text → ExecutionPlan → Outputs Json → List Text
unfolding failed_among tool_plan invoked_tool_names agent_failed has_graph_hits inner_of output_of
failed_analyst_tools query plan outputs =
    let analyst = output_of code_analyst outputs in
    if mem_agent code_analyst plan.agents
    then failed_among (tool_plan plan.intent.intent code_analyst query).parallel (inner_of analyst)
        (λ t.
          mem_text t (invoked_tool_names analyst)
          || (agent_failed analyst || not (has_graph_hits outputs)))
    else []

any_char : (ℕ → Bool) → Text → Bool
any_char p [] = false
any_char p (c ∷ s) = p c || any_char p s

unfoldable pub looks_like_identifier : Text → Bool
unfolding any_char strip is_space is_upper is_lower
looks_like_identifier token =
    let stripped = strip token in
    not (any_char is_space stripped)
    && (any_char (λ c. c == b'.') stripped
        || (any_char (λ c. c == b'_') stripped
            || (any_char is_upper stripped && any_char is_lower stripped)))

unfoldable pub is_refinement_token : Text → Bool
unfolding looks_like_identifier strip lower mem_text
is_refinement_token token =
    let stripped = strip token in
    not (leb (length stripped) 2)
    && (not (
          mem_text (lower stripped) lookup_filler || mem_text (lower stripped) refinement_stopwords)
        && looks_like_identifier stripped)

starts_name : Text → Bool
unfolding is_word is_digit
starts_name [] = false
starts_name (c ∷ s) = is_word c && not (is_digit c)

-- What follows in a token of _TOKEN_RE, [A-Za-z_][A-Za-z0-9_]*(?:\.[A-Za-z_][A-Za-z0-9_]*)*.
token_rest : Text → Text
unfolding starts_name is_word
token_rest [] = []
token_rest (c ∷ s) = if is_word c || (c == b'.' && starts_name s) then c ∷ token_rest s else []

tokens_from : ℕ → Text → List Text
unfolding token_rest starts_name
tokens_from k [] = []
tokens_from (suc k) (c ∷ s) = tokens_from k s
tokens_from zero (c ∷ s) = elim (starts_name (c ∷ s)) [
  | true ↦ (c ∷ token_rest s) ∷ tokens_from (length (token_rest s)) s
  | false ↦ tokens_from 0 s
]

refinement_tokens : List Text → List Text
unfolding is_refinement_token
refinement_tokens [] = []
refinement_tokens (t ∷ ts) =
    if is_refinement_token t then t ∷ refinement_tokens ts else refinement_tokens ts

-- The texts seen, lowered, are those of the broader terms.
add_term : List Text → Text → List Text
unfolding mem_text lower
add_term broader [] = broader
add_term broader (c ∷ s) =
    if mem_text (lower (c ∷ s)) (map lower broader) then broader else broader ++ (c ∷ s) ∷ []

add_kept : List Text → List Text → List Text
unfolding add_term strip
add_kept broader [] = broader
add_kept broader (t ∷ ts) = add_kept (add_term broader (strip t)) ts

add_candidates : List Text → List Text → List Text → List Text
unfolding add_term strip is_refinement_token mem_text lower
add_candidates tried broader [] = broader
add_candidates tried broader (t ∷ ts) =
    let key = strip t in
    add_candidates tried
      (if mem_text (lower key) tried || not (is_refinement_token key)
        then broader
        else add_term broader key)
      ts

add_query : List Text → List Text → Text → List Text
unfolding add_term mem_text lower
add_query tried broader stripped =
    if mem_text (lower stripped) tried then broader else add_term broader stripped

lowered_terms : List Text → List Text
unfolding strip lower
lowered_terms ts = map (λ t. lower (strip t)) (without_blank ts)

unfoldable pub broader_terms : Text → List Text → List Text → List Text
unfolding add_kept add_candidates add_query lowered_terms tokens_from refinement_tokens
    retrieval_search_terms strip
broader_terms query already_tried keep_terms =
    let tried = lowered_terms already_tried in
    add_query tried
      (add_candidates tried (add_kept [] keep_terms)
        (retrieval_search_terms query [] ++ refinement_tokens (tokens_from 0 query)))
      (strip query)
