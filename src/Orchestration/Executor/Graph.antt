-- ===== src/Orchestration/Executor/Graph.antt =====
-- core/src/core/orchestration/executor.py, the calls of the graph agent in run_plan. How the call of a
-- tool ends is an argument: `_call` asks the budget, records the tool and waits for the agent.
use repo_agent.Prelude.{
  ℕ, String, Bool, true, false, not, ◌||◌, Option, none, some, List, [], ◌∷◌, ◌++◌, map,
  if◌then◌else◌,
}
use repo_agent.Prelude.Int.{ℤ}
use repo_agent.Prelude.Json.{Json, null, array, object, Fields, end, items_of}
use repo_agent.Prelude.Text.{codes}
use repo_agent.Prelude.Words.{Text, mem_text, is_text}
use repo_agent.Orchestration.Models.{AgentOutput}
use repo_agent.Orchestration.Executor.Tools.{
  find_entity, get_dependencies, get_dependents, trace_imports, find_related, Relation,
}
use repo_agent.Orchestration.Executor.Candidates.{
  jsonish, entity_hits, hit_identity, resolved_name, select_analysis_candidates,
}

-- How `_call` ends: the budget refuses the call, or leaves no time once the tool is recorded, the agent
-- returns a result, times out or is unavailable, or another exception is raised.
pub data CallEnd : Type 0 where
  refused : CallEnd
  no_time : CallEnd
  gave : Json → CallEnd
  timed_out : CallEnd
  raised : String → CallEnd

-- A tool with its name and the type of a relation.
pub record Call : Type 0 where
  pub tool : Text
  pub name : Text
  pub relation : Option Relation

-- What the calls of a plan meet: str() of a JSON value, float() of a score, the end of each call, and
-- which of the failures of a gather comes first.
pub record World : Type 0 where
  pub str_of : Json → Text
  pub score_of : Json → ℤ
  pub call : Call → CallEnd
  pub first_failure : List CallEnd → CallEnd

-- `_record`: the tool, unless the budget refuses the call.
unfoldable pub recorded : CallEnd → Text → List Text
recorded refused tool = []
recorded e tool = (codes "graph_query." ++ tool) ∷ []

unfoldable pub recorded_all : World → List Call → List Text
unfolding recorded
recorded_all w [] = []
recorded_all w (c ∷ cs) = recorded (w.call c) c.tool ++ recorded_all w cs

unfoldable pub find_calls : List Text → List Call
find_calls [] = []
find_calls (t ∷ ts) = record { tool = find_entity; name = t; relation = none } ∷ find_calls ts

unfoldable pub ends_of : World → List Call → List CallEnd
ends_of w [] = []
ends_of w (c ∷ cs) = w.call c ∷ ends_of w cs

-- The results, if every call gave one.
unfoldable pub results_of : List CallEnd → Option (List Json)
results_of [] = some []
results_of (gave v ∷ es) = elim (results_of es) [ none ↦ none | some vs ↦ some (v ∷ vs) ]
results_of (e ∷ es) = none

-- What the graph agent leaves behind: its output, whether it is available, and what it found.
pub record GraphRun : Type 0 where
  pub status : AgentOutput Json
  pub available : Bool
  pub entities : List Json
  pub hits : List Fields
  pub analysis_candidates : List Fields
  pub extra : Fields
  pub tools : List Text

unfoldable pub hit_list : List Fields → Json
unfolding items_of
hit_list hits = array (items_of (map object hits))

unfoldable pub without_output : Bool → Option String → Option String → AgentOutput Json
without_output ok error note = record {
  ok = ok;
  output = none;
  error = error;
  degraded_note = note;
  tools_invoked = [];
}

unfoldable pub failed_run : List Text → Bool → String → String → GraphRun
unfolding without_output
failed_run tools available error note = record {
  status = without_output false (some error) (some note);
  available = available;
  entities = [];
  hits = [];
  analysis_candidates = [];
  extra = end;
  tools = tools;
}

-- The except clauses. When a find_entity call is skipped nothing has been found yet.
unfoldable pub failure_of : List Text → CallEnd → GraphRun
unfolding failed_run
failure_of tools timed_out =
    failed_run tools false "graph_query timeout"
      "graph_query unavailable/timeout; using raw-file fallback"
failure_of tools (raised error) =
    failed_run tools false error "graph_query unavailable; using raw-file fallback"
failure_of tools e =
    failed_run tools true "budget_skip" "budget reserved remaining time for synthesis"

-- None is dropped from the entities.
unfoldable pub entities_of : List Json → List Json
unfolding jsonish
entities_of [] = []
entities_of (null ∷ vs) = entities_of vs
entities_of (v ∷ vs) = jsonish v ∷ entities_of vs

unfoldable pub all_hits : List Json → List Fields
unfolding entity_hits
all_hits [] = []
all_hits (v ∷ vs) = entity_hits v ++ all_hits vs

unfoldable pub per_term : World → ℕ → List Json → List Fields
unfolding select_analysis_candidates entity_hits
per_term w limit [] = []
per_term w limit (v ∷ vs) =
    select_analysis_candidates w.str_of w.score_of true limit (entity_hits v) ++ per_term w limit vs

unfoldable pub candidates_of : World → ℕ → List Json → List Fields
unfolding select_analysis_candidates per_term
candidates_of w limit results =
    select_analysis_candidates w.str_of w.score_of false limit (per_term w limit results)

-- The names of the candidates, or else of the terms whose first hit has an identity.
unfoldable pub candidate_names : World → List Fields → List Text
unfolding resolved_name
candidate_names w [] = []
candidate_names w (h ∷ hs) = resolved_name w.str_of [] h ∷ candidate_names w hs

unfoldable pub term_names : World → List Text → List Fields → List Text
unfolding hit_identity resolved_name is_text
term_names w (t ∷ ts) (h ∷ hs) =
    let rest = term_names w ts hs in
    if is_text (hit_identity w.str_of h) then resolved_name w.str_of t h ∷ rest else rest
term_names w ts hs = []

unfoldable pub relation_names : World → List Text → List Fields → List Fields → List Text
unfolding candidate_names term_names
relation_names w terms hits [] = term_names w terms hits
relation_names w terms hits (c ∷ cs) = candidate_names w (c ∷ cs)

-- The names that are not empty, each once.
unfoldable pub unique_names : List Text → List Text → List Text
unfolding is_text mem_text
unique_names seen [] = []
unique_names seen (n ∷ ns) =
    let skipping = unique_names seen ns in
    let taking = unique_names (n ∷ seen) ns in
    if not (is_text n) || mem_text n seen then skipping else n ∷ taking

-- A call of a tool, if it is planned.
unfoldable pub planned_call : List Text → Text → Text → Option Relation → List Call
unfolding mem_text
planned_call parallel tool name relation =
    if mem_text tool parallel
    then record { tool = tool; name = name; relation = relation } ∷ []
    else []

unfoldable pub related_call : List Text → Text → Option Relation → List Call
unfolding planned_call
related_call parallel name none = []
related_call parallel name (some r) = planned_call parallel find_related name (some r)

unfoldable pub relation_calls : List Text → Option Relation → List Text → List Call
unfolding planned_call related_call
relation_calls parallel relation [] = []
relation_calls parallel relation (n ∷ ns) =
    planned_call parallel get_dependencies n none
    ++ (planned_call parallel get_dependents n none
        ++ (planned_call parallel trace_imports n none
            ++ (related_call parallel n relation ++ relation_calls parallel relation ns)))
