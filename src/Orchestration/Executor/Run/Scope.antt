-- ===== src/Orchestration/Executor/Run/Scope.antt =====
-- What the graph agent hands on to the analysis, and what it does for a query that is out of scope.
use repo_agent.Prelude.{
  ℕ, ◌≤◌, ◌≡◌, refl, sym, subst, Bool, true, false, ◌&&◌, Option, none, some, List, [], ◌∷◌, ◌++◌,
  map, arith, if◌then◌else◌, length, All,
}
use repo_agent.Prelude.Json.{Json, Fields}
use repo_agent.Prelude.Text.{codes}
use repo_agent.Prelude.Words.{Text, mem_text, IsDistinct}
use repo_agent.Orchestration.Models.{graph_query, ExecutionPlan}
use repo_agent.Orchestration.Evidence.Assess.{is_out_of_scope}
use repo_agent.Orchestration.Executor.Tools.{ToolPlan, tool_plan, find_entity}
use repo_agent.Orchestration.Executor.Candidates.{identities, candidate_limit, primary_hit}
use repo_agent.Orchestration.Executor.Candidates.Selected.{select_analysis_candidates-IsDistinct}
use repo_agent.Orchestration.Executor.Graph.{
  CallEnd, refused, no_time, gave, timed_out, raised, Call, World, recorded, recorded_all,
  find_calls, ends_of, results_of, GraphRun, failed_run, failure_of, candidates_of, per_term,
}
use repo_agent.Orchestration.Executor.Run.{
  relations_for, after_find, find_first, after_gather, nothing_to_find, is_nil, run_tools, terms_of,
  run_graph, blank, end,
}

-- At most `limit` hits, with different identities.
unfoldable pub AreSelected : World → ℕ → List Fields → Type 0
AreSelected w limit hits = (length hits ≤ limit) × IsDistinct (identities w.str_of hits)

AreSelected-nil : (w : World) (limit : ℕ) → AreSelected w limit []
unfolding AreSelected identities IsDistinct
AreSelected-nil w limit = (omega arith, tt)

AreSelected-if :
    (w : World) (limit : ℕ) (b : Bool) (hits : List Fields)
    → AreSelected w limit hits
    → AreSelected w limit (if b then [] else hits)
AreSelected-if w limit true hits h = AreSelected-nil w limit
AreSelected-if w limit false hits h = h

failure_of-nothing :
    (tools : List Text) (e : CallEnd) → (failure_of tools e).analysis_candidates ≡ []
unfolding failure_of failed_run
failure_of-nothing tools refused = refl
failure_of-nothing tools no_time = refl
failure_of-nothing tools (gave v) = refl
failure_of-nothing tools timed_out = refl
failure_of-nothing tools (raised e) = refl

module _ (w : World) (tools : ToolPlan) (query : Text) (iteration : ℕ) (terms : List Text) where
  after_gather-AreSelected :
      (cs : List Call) (o : Option (List Json))
      → AreSelected w
          (candidate_limit iteration)
          (after_gather w tools query iteration terms cs o).analysis_candidates
  unfolding after_gather after_find candidates_of AreSelected
  after_gather-AreSelected cs none =
      subst (λ hits. AreSelected w (candidate_limit iteration) hits)
        (sym (failure_of-nothing (recorded_all w cs) (w.first_failure (ends_of w cs))))
        (AreSelected-nil w (candidate_limit iteration))
  after_gather-AreSelected cs (some results) =
      AreSelected-if w (candidate_limit iteration) (is_out_of_scope query)
        (candidates_of w (candidate_limit iteration) results)
        (select_analysis_candidates-IsDistinct w.str_of w.score_of false (candidate_limit iteration)
          (per_term w (candidate_limit iteration) results))

  either_run :
      (P : GraphRun → Type 0) (b c : Bool) (r s t : GraphRun)
      → P r
      → P s
      → P t
      → P (if b then r else if c then s else t)
  either_run P true c r s t p q u = p
  either_run P false true r s t p q u = q
  either_run P false false r s t p q u = u

  run_tools-AreSelected :
      AreSelected w
        (candidate_limit iteration)
        (run_tools w tools query iteration terms).analysis_candidates
  unfolding run_tools failed_run nothing_to_find
  run_tools-AreSelected =
      either_run (λ r. AreSelected w (candidate_limit iteration) r.analysis_candidates)
        (is_nil tools.first && is_nil tools.parallel)
        (mem_text find_entity tools.first && is_nil terms)
        (failed_run [] true "empty_tool_plan" "no tool plan for intent; specialist was not invoked")
        nothing_to_find
        (after_gather w tools query iteration terms (find_first w tools terms)
          (results_of (ends_of w (find_first w tools terms))))
        (AreSelected-nil w (candidate_limit iteration))
        (AreSelected-nil w (candidate_limit iteration))
        (after_gather-AreSelected (find_first w tools terms)
          (results_of (ends_of w (find_first w tools terms))))

-- Whatever the calls of the tools give: the graph agent hands at most three hits on to the analysis, at
-- most two behind the first round, and no two of them have the same identity.
pub run_graph-AreSelected :
    (w : World) (plan : ExecutionPlan) (query : Text)
    → AreSelected w (candidate_limit plan.iteration) (run_graph w plan query).analysis_candidates
unfolding run_graph
run_graph-AreSelected w plan query =
    run_tools-AreSelected w (tool_plan plan.intent.intent graph_query query) query plan.iteration
      (terms_of plan query)

-- Neither a candidate nor a hit that is not empty for the analysis, and find_entity is the only tool
-- that was called.
unfoldable pub OnlyFinds : GraphRun → Type 0
OnlyFinds r =
    (r.analysis_candidates ≡ [])
    × All (λ h. h ≡ end) r.hits
    × All (λ t. t ≡ codes "graph_query.find_entity") r.tools

blank-empty : (hits : List Fields) → All (λ h. h ≡ end) (blank hits)
unfolding blank
blank-empty [] = tt
blank-empty (h ∷ hs) = (refl, blank-empty hs)

blank_if :
    (b : Bool) (hits : List Fields) → b ≡ true → All (λ h. h ≡ end) (if b then blank hits else hits)
blank_if true hits h = blank-empty hits
blank_if false hits h = cc

failure_of-hits : (tools : List Text) (e : CallEnd) → (failure_of tools e).hits ≡ []
unfolding failure_of failed_run
failure_of-hits tools refused = refl
failure_of-hits tools no_time = refl
failure_of-hits tools (gave v) = refl
failure_of-hits tools timed_out = refl
failure_of-hits tools (raised e) = refl

recorded-finds :
    (e : CallEnd) → All (λ t. t ≡ codes "graph_query.find_entity") (recorded e find_entity)
unfolding recorded
recorded-finds refused = tt
recorded-finds no_time = (refl, tt)
recorded-finds (gave v) = (refl, tt)
recorded-finds timed_out = (refl, tt)
recorded-finds (raised e) = (refl, tt)

All-append : (P : Text → Type 0) (xs ys : List Text) → All P xs → All P ys → All P (xs ++ ys)
All-append P [] ys h k = k
All-append P (x ∷ xs) ys (p, h) k = (p, All-append P xs ys h k)

recorded_all-finds :
    (w : World) (terms : List Text)
    → All (λ t. t ≡ codes "graph_query.find_entity") (recorded_all w (find_calls terms))
unfolding recorded_all find_calls
recorded_all-finds w [] = tt
recorded_all-finds w (t ∷ ts) =
    All-append (λ u. u ≡ codes "graph_query.find_entity") _ _ (recorded-finds _)
      (recorded_all-finds w ts)

finds_if :
    (b : Bool) (w : World) (terms : List Text)
    → All
        (λ t. t ≡ codes "graph_query.find_entity")
        (recorded_all w (if b then find_calls terms else []))
unfolding recorded_all
finds_if true w terms = recorded_all-finds w terms
finds_if false w terms = tt

nil_if {ℓ} : {A : Type ℓ} (b : Bool) (xs : List A) → b ≡ true → (if b then [] else xs) ≡ []
nil_if true xs h = refl
nil_if false xs h = cc

find_first-finds :
    (w : World) (tools : ToolPlan) (terms : List Text)
    → All (λ t. t ≡ codes "graph_query.find_entity") (recorded_all w (find_first w tools terms))
unfolding find_first
find_first-finds w tools terms = finds_if (mem_text find_entity tools.first) w terms

failure_of-tools : (tools : List Text) (e : CallEnd) → (failure_of tools e).tools ≡ tools
unfolding failure_of failed_run
failure_of-tools tools refused = refl
failure_of-tools tools no_time = refl
failure_of-tools tools (gave v) = refl
failure_of-tools tools timed_out = refl
failure_of-tools tools (raised e) = refl

relations_for-none :
    (w : World) (tools : ToolPlan) (query : Text) (terms : List Text)
    (hits candidates : List Fields)
    → is_out_of_scope query ≡ true
    → relations_for w tools query terms hits candidates ≡ []
unfolding relations_for
relations_for-none w tools query terms hits candidates h = nil_if (is_out_of_scope query) _ h

module _ (w : World) (tools : ToolPlan) (query : Text) (iteration : ℕ) (terms : List Text)
    (h : is_out_of_scope query ≡ true) where
  after_gather-OnlyFinds :
      (cs : List Call) (o : Option (List Json))
      → All (λ t. t ≡ codes "graph_query.find_entity") (recorded_all w cs)
      → OnlyFinds (after_gather w tools query iteration terms cs o)
  unfolding after_gather after_find OnlyFinds recorded_all
  after_gather-OnlyFinds cs none k =
      let e = w.first_failure (ends_of w cs) in
      (
        failure_of-nothing (recorded_all w cs) e,
        subst (λ z. All (λ h. h ≡ end) z) (sym (failure_of-hits (recorded_all w cs) e)) tt,
        subst (λ z. All (λ t. t ≡ codes "graph_query.find_entity") z)
            (sym (failure_of-tools (recorded_all w cs) e)) k,
      )
  after_gather-OnlyFinds cs (some results) k =
      let found = candidates_of w (candidate_limit iteration) results in
      let candidates = if is_out_of_scope query then [] else found in
      let hits =
        if is_out_of_scope query
        then blank (map primary_hit results)
        else map primary_hit results in
      let related = relations_for w tools query terms hits candidates in
      (
        nil_if (is_out_of_scope query) found h,
        blank_if (is_out_of_scope query) (map primary_hit results) h,
        All-append (λ t. t ≡ codes "graph_query.find_entity") (recorded_all w cs)
            (recorded_all w related) k
            (subst (λ z. All (λ t. t ≡ codes "graph_query.find_entity") (recorded_all w z))
              (sym (relations_for-none w tools query terms hits candidates h)) tt),
      )

  run_tools-OnlyFinds : OnlyFinds (run_tools w tools query iteration terms)
  unfolding run_tools failed_run nothing_to_find OnlyFinds
  run_tools-OnlyFinds =
      either_run w tools query iteration terms OnlyFinds
        (is_nil tools.first && is_nil tools.parallel)
        (mem_text find_entity tools.first && is_nil terms)
        (failed_run [] true "empty_tool_plan" "no tool plan for intent; specialist was not invoked")
        nothing_to_find
        (after_gather w tools query iteration terms (find_first w tools terms)
          (results_of (ends_of w (find_first w tools terms))))
        (refl, tt, tt) (refl, tt, tt)
        (after_gather-OnlyFinds (find_first w tools terms)
          (results_of (ends_of w (find_first w tools terms))) (find_first-finds w tools terms))

-- For a query that is out of scope, whatever the calls give: the graph agent leaves no candidate for the
-- analysis, every one of the hits that the analysis falls back on is an empty dict, and no tool but
-- find_entity is called.
pub run_graph-OnlyFinds :
    (w : World) (plan : ExecutionPlan) (query : Text)
    → is_out_of_scope query ≡ true
    → OnlyFinds (run_graph w plan query)
unfolding run_graph
run_graph-OnlyFinds w plan query h =
    run_tools-OnlyFinds w (tool_plan plan.intent.intent graph_query query) query plan.iteration
      (terms_of plan query) h
