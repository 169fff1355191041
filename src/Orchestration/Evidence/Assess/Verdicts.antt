-- ===== src/Orchestration/Evidence/Assess/Verdicts.antt =====
-- core/src/core/orchestration/evidence.py: when `evaluate_evidence` finds the evidence sufficient.
use repo_agent.Prelude.{
  String, ◌≡◌, refl, ap, ◌∙◌, Bool, true, false, not, ◌&&◌, ◌||◌, List, arith, if◌then◌else◌,
}
use repo_agent.Prelude.Words.{Text}
use repo_agent.Prelude.Json.{Json}
use repo_agent.Orchestration.Models.{
  IntentKind, lookup_kind, relationship_kind, explanation_kind, pattern_kind, comparison_kind,
  indexing_kind, mixed_kind, ExecutionPlan, EvidenceAssessment,
}
use repo_agent.Orchestration.Loop.{Outputs}
use repo_agent.Orchestration.Evidence.Assess.{
  Facts, needs_graph, needs_analyst, enough, lacking, pattern_assessment, graph_assessment,
  no_hits_assessment, by_kind, assess, facts_of, evaluate_evidence,
}

-- The analyst's part is missing: it is needed, it gave nothing usable, and it was not planned or failed.
unfoldable pub analyst_owes : Facts → Bool
unfolding needs_analyst
analyst_owes f =
    needs_analyst f.kind f.analyst_planned
    && (not f.analyst_evidence && (not f.analyst_planned || f.analyst_failed))

unfoldable pub answers_kind : Facts → IntentKind → Bool
unfolding analyst_owes
answers_kind f indexing_kind = f.indexer_ok
answers_kind f pattern_kind = f.analyst_evidence || (f.analyst_present && not f.analyst_failed)
answers_kind f kind = if f.graph_hits then not (analyst_owes f) else f.analyst_evidence

kind_sufficient :
    (f : Facts) (kind : IntentKind) (broader failed : List Text)
    → f.kind ≡ kind
    → (by_kind f kind broader failed).sufficient ≡ answers_kind f kind
unfolding by_kind pattern_assessment graph_assessment no_hits_assessment needs_graph needs_analyst
    enough lacking answers_kind analyst_owes
kind_sufficient f indexing_kind broader failed e = ground arith
kind_sufficient f pattern_kind broader failed e = ground arith
kind_sufficient f lookup_kind broader failed e = ground arith
kind_sufficient f relationship_kind broader failed e = ground arith
kind_sufficient f explanation_kind broader failed e = ground arith
kind_sufficient f comparison_kind broader failed e = ground arith
kind_sufficient f mixed_kind broader failed e = ground arith

enough_or :
    (b : Bool) (reason : String) (x : EvidenceAssessment)
    → (if b then enough reason else x).sufficient ≡ (b || x.sufficient)
unfolding enough
enough_or true reason x = refl
enough_or false reason x = refl

assess-sufficient :
    (f : Facts) (broader failed : List Text)
    → (assess f broader failed).sufficient ≡ (f.out_of_scope || answers_kind f f.kind)
unfolding assess
assess-sufficient f broader failed =
    enough_or f.out_of_scope "out_of_scope" (by_kind f f.kind broader failed)
    ∙ ap (λ x. f.out_of_scope || x) (kind_sufficient f f.kind broader failed refl)

-- The evidence is sufficient exactly when the query is out of scope, or the index was built for an
-- indexing intent, or the analyst ran or gave something usable for a pattern intent, or, for the
-- others, the graph has hits and the analyst owes nothing, or it has none but the analyst does.
pub evaluate_evidence-sufficient :
    (str_of : Json → Text) (query : Text) (plan : ExecutionPlan) (outputs : Outputs Json)
    → let f = facts_of query plan outputs in
      (evaluate_evidence str_of query plan outputs).sufficient
      ≡ (f.out_of_scope || answers_kind f f.kind)
unfolding evaluate_evidence
evaluate_evidence-sufficient str_of query plan outputs =
    assess-sufficient (facts_of query plan outputs) _ _
