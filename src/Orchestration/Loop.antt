-- ===== src/Orchestration/Loop.antt =====
-- core/src/core/orchestration/loop.py.
-- The executor, the merging and assessing of evidence and the refinement of a plan are arguments, as
-- is the size of the synthesis prompt; `run_plan` may change the budget. `clock i` holds the readings
-- of round `i`: the two of `allow_new_call` and the one for the deadline.
pub mod Rounds
mod Examples
use repo_agent.Prelude.{
  ℕ, zero, suc, ◌+◌, ◌-◌, min, String, Bool, true, Option, none, some, List, [], ◌∷◌, ◌++◌, str_eq,
  leb, if◌then◌else◌,
}
use repo_agent.Prelude.Int.{ℤ, clamp, clamp_one}
use repo_agent.Prelude.Words.{Text}
use repo_agent.Orchestration.Models.{
  AgentName, same_agent, ExecutionPlan, EvidenceAssessment, PlanIteration, AgentOutput,
}
use repo_agent.Observability.Ledger.{Ledger}
use repo_agent.Orchestration.Budget.{Budget, allow_new_call, apply_prompt_reserve}

abbrev pub Outputs : Type 0 → Type 0
Outputs A = List (AgentName × AgentOutput A)

tools_of : {A : Type 0} → AgentName → Outputs A → List Text
unfolding same_agent
tools_of a [] = []
tools_of a ((b, o) ∷ outputs) = if same_agent b a then o.tools_invoked else tools_of a outputs

unfoldable pub tools_invoked : {A : Type 0} → List AgentName → Outputs A → List Text
unfolding tools_of
tools_invoked [] outputs = []
tools_invoked (a ∷ agents) outputs = tools_of a outputs ++ tools_invoked agents outputs

-- current.search_terms or current.intent.entities
terms_of : Option (List Text) → List Text → List Text
terms_of none entities = entities
terms_of (some []) entities = entities
terms_of (some (t ∷ ts)) entities = t ∷ ts

-- current.refinement_reason or None
reason_of : String → Option String
reason_of s = if str_eq s "" then none else some s

unfoldable pub iteration_of :
    {A : Type 0} → ExecutionPlan → Outputs A → EvidenceAssessment → PlanIteration
unfolding tools_invoked terms_of reason_of
iteration_of p outputs a = record {
  iteration = p.iteration;
  routing_mode = p.routing_mode;
  agents = p.agents;
  tools_invoked = tools_invoked p.agents outputs;
  search_terms = terms_of p.search_terms p.intent.entities;
  sufficient = a.sufficient;
  reason = a.reason;
  refinement = reason_of p.refinement_reason;
}

-- The functions that a round calls, for one query, and the readings of the clock.
pub record Calls (A : Type 0) : Type 0 where
  pub run_plan : ℕ → ExecutionPlan → Option Budget → Outputs A × Option Budget
  pub merge_agent_outputs : Outputs A → Outputs A → Outputs A
  pub evaluate_evidence : ExecutionPlan → Outputs A → EvidenceAssessment
  pub refine_plan : ExecutionPlan → EvidenceAssessment → Option ExecutionPlan
  pub estimated_tokens : Outputs A → ℕ
  pub ledger : ℕ → Option Ledger
  pub correlation_id : String
  pub clock : ℕ → ℕ × ℕ × ℕ

-- budget is not None and not budget.allow_new_call(...): whether the round may start.
unfoldable pub allows : {A : Type 0} → Calls A → ℕ → Option Budget → Bool × Option Budget
allows c i none = (true, none)
allows c i (some b) =
    let (now, later, at) = c.clock i in
    let (ok, b') = allow_new_call (c.ledger i) c.correlation_id now later b in (ok, some b')

refined : {A : Type 0} → Calls A → ExecutionPlan → Option EvidenceAssessment → Option ExecutionPlan
refined c plan none = none
refined c plan (some a) = c.refine_plan plan a

-- The plan of the round, if it has one.
unfoldable pub next_plan :
    {A : Type 0}
    → Calls A
    → ℕ
    → ℕ
    → ExecutionPlan
    → Option EvidenceAssessment
    → Option ExecutionPlan
unfolding refined
next_plan c deadline zero plan a = some plan
next_plan c deadline (suc i) plan a =
    let (now, later, at) = c.clock (suc i) in if leb deadline at then none else refined c plan a

combine : {A : Type 0} → Calls A → Outputs A → Outputs A → Outputs A
combine c [] outputs = outputs
combine c (x ∷ xs) outputs = c.merge_agent_outputs (x ∷ xs) outputs

reserve : {A : Type 0} → Calls A → Outputs A → Option Budget → Option Budget
reserve c combined none = none
reserve c combined (some b) = some (apply_prompt_reserve (c.estimated_tokens combined) b)

pub record Result (A : Type 0) : Type 0 where
  pub combined : Outputs A
  pub iterations : List PlanIteration
  pub budget : Option Budget

-- What the loop holds between two rounds.
pub record State (A : Type 0) : Type 0 where
  pub plan : ExecutionPlan
  pub assessment : Option EvidenceAssessment
  pub combined : Outputs A
  pub budget : Option Budget

-- A round, with what it records.
unfoldable pub run_round :
    {A : Type 0} → Calls A → ℕ → ExecutionPlan → State A → PlanIteration × State A
unfolding combine reserve iteration_of
run_round c i plan s =
    let (outputs, budget) = c.run_plan i plan s.budget in
    let combined = combine c s.combined outputs in
    let a = c.evaluate_evidence plan combined in
    (
      iteration_of plan outputs a,
      record {
        plan = plan;
        assessment = some a;
        combined = combined;
        budget = reserve c combined budget;
      },
    )

stop : {A : Type 0} → State A → Result A
stop s = record { combined = s.combined; iterations = []; budget = s.budget }

with_iteration : {A : Type 0} → PlanIteration → Result A → Result A
with_iteration it r = record r { iterations = it ∷ r.iterations }

-- for round_index in range(max_iterations), with the rounds left and the index of the next.
unfoldable pub rounds : {A : Type 0} → Calls A → ℕ → ℕ → ℕ → State A → Result A
unfolding stop with_iteration
rounds c deadline zero i s = stop s
rounds c deadline (suc n) i s =
    let (ok, budget) = allows c i s.budget in
    let s' = record s { budget = budget } in
    if ok
    then elim (next_plan c deadline i s.plan s.assessment) [
      | none ↦ stop s'
      | some plan ↦
          let (it, s'') = run_round c i plan s' in
          with_iteration it (if it.sufficient then stop s'' else rounds c deadline n (suc i) s'')
    ]
    else stop s'

-- The cutoff of the later rounds.
unfoldable pub cutoff : ℕ → ℤ → Option ℕ → Option Budget → ℕ
cutoff now plan_deadline none none = now + clamp plan_deadline
cutoff now plan_deadline (some d) none = min (now + clamp plan_deadline) d
cutoff now plan_deadline none (some b) =
    min (now + clamp plan_deadline) (b.deadline_monotonic - b.synthesis_reserve)
cutoff now plan_deadline (some d) (some b) =
    min (min (now + clamp plan_deadline) d) (b.deadline_monotonic - b.synthesis_reserve)

timed : ℕ → ℕ → Option Budget → Option Budget
timed started ended none = none
timed started ended (some b) = some (record b { plan_duration = ended - started })

-- The clock is read for the cutoff, at the start and at the end.
unfoldable pub run_refinement_loop :
    {A : Type 0} → Calls A → ℤ → ℤ → Option ℕ → ℕ → ℕ → ℕ → ExecutionPlan → Option Budget → Result A
unfolding cutoff timed
run_refinement_loop c max_plan_iterations plan_deadline deadline now started ended plan budget =
    let r =
      rounds c (cutoff now plan_deadline deadline budget) (clamp_one max_plan_iterations) 0
        (record { plan = plan; assessment = none; combined = []; budget = budget }) in
    record r { budget = timed started ended r.budget }
