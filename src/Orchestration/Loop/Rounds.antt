-- ===== src/Orchestration/Loop/Rounds.antt =====
-- core/src/core/orchestration/loop.py: how many rounds the loop runs, and when it stops.
use repo_agent.Prelude.{
  ℕ, zero, suc, ◌+◌, ◌≤◌, ◌<◌, ◌≡◌, refl, ◌⊎◌, inl, inr, true, false, Option, none, some, List, [],
  ◌∷◌, arith, if◌then◌else◌, Bool-cases, Option-cases, length,
}
use repo_agent.Prelude.Int.{ℤ, clamp_one, at_least_one}
use repo_agent.Orchestration.Budget.{Budget}
use repo_agent.Orchestration.Models.{ExecutionPlan, EvidenceAssessment, PlanIteration}
use repo_agent.Orchestration.Loop.{
  Calls, allows, next_plan, Result, State, stop, with_iteration, rounds, cutoff,
  run_refinement_loop,
}

-- The reading of the clock for the deadline of a round.
abbrev pub deadline_reading : {A : Type 0} → Calls A → ℕ → ℕ
deadline_reading c i = (c.clock i).2

module _ {A : Type 0} (c : Calls A) (deadline : ℕ) where
  -- A round that starts is the first or starts in front of the deadline.
  InTime : ℕ → Type 0
  InTime zero = Unit
  InTime (suc i) = deadline_reading c (suc i) < deadline

  next_plan-InTime :
      (i : ℕ) (plan p : ExecutionPlan) (a : Option EvidenceAssessment)
      → next_plan c deadline i plan a ≡ some p
      → InTime i
  unfolding next_plan InTime
  next_plan-InTime zero plan p a e = tt
  next_plan-InTime (suc i) plan p a e = ground arith

  -- How the loop goes on with a round left: it stops, or it runs a round and then stops or goes on.
  Step : ℕ → ℕ → Result A → Type 0
  unfolding InTime
  Step n i r =
      ((s : State A) × (r ≡ stop s))
      ⊎ ((it : PlanIteration) × (s : State A) × InTime i
          × (((it.sufficient ≡ true) × (r ≡ with_iteration it (stop s)))
              ⊎ ((it.sufficient ≡ false)
                  × (r ≡ with_iteration it (rounds c deadline n (suc i) s)))))

  stops : (n i : ℕ) (s : State A) → Step n i (stop s)
  unfolding Step
  stops n i s = inl (s, refl)

  after_round :
      (n i : ℕ) (it : PlanIteration) (s : State A)
      → InTime i
      → Step n i
          (with_iteration it (if it.sufficient then stop s else rounds c deadline n (suc i) s))
  unfolding Step
  after_round n i it s t = elim (Bool-cases it.sufficient) [
    | inl h ↦ inr (it, s, t, inl (h, rw h refl))
    | inr h ↦ inr (it, s, t, inr (h, rw h refl))
  ]

  rounds-Step : (n i : ℕ) (s : State A) → Step n i (rounds c deadline (suc n) i s)
  unfolding rounds
  rounds-Step n i s = elim (Bool-cases (allows c i s.budget).0) [
    | inl ok ↦ elim (Option-cases (next_plan c deadline i s.plan s.assessment)) [
      | inl none_left ↦
          rw (ok, rounds)
            (rw (none_left, rounds) (stops n i (record s { budget = (allows c i s.budget).1 })))
      | inr (p, e) ↦
          rw (ok, rounds)
            (rw (e, rounds) (after_round n i _ _ (next_plan-InTime i s.plan p s.assessment e)))
    ]
    | inr refused ↦ rw (refused, rounds) (stops n i (record s { budget = (allows c i s.budget).1 }))
  ]

  rounds_bounded : (n i : ℕ) (s : State A) → length (rounds c deadline n i s).iterations ≤ n
  unfolding rounds stop with_iteration Step
  rounds_bounded zero i s = omega arith
  rounds_bounded (suc n) i s = elim (rounds-Step n i s) [
    | inl (s', e) ↦ rw e (omega arith)
    | inr (it, s', t, inl (h, e)) ↦ rw e (omega arith)
    | inr (it, s', t, inr (h, e)) ↦ rw e (omega (arith, rounds_bounded n (suc i) s'))
  ]

  -- Once the readings reach the deadline no round starts.
  rounds_late :
      (n i : ℕ) (s : State A)
      → ((j : ℕ) → suc i ≤ j → deadline ≤ deadline_reading c j)
      → (rounds c deadline n (suc i) s).iterations ≡ []
  unfolding rounds stop with_iteration Step InTime
  rounds_late zero i s late = refl
  rounds_late (suc n) i s late = elim (rounds-Step n (suc i) s) [
    | inl (s', e) ↦ rw e refl
    | inr (it, s', t, rest) ↦ let over = late (suc i) (omega arith) in absurd (omega arith)
  ]

  rounds_until :
      (n i k : ℕ) (s : State A)
      → ((j : ℕ) → suc (i + k) ≤ j → deadline ≤ deadline_reading c j)
      → length (rounds c deadline n i s).iterations ≤ suc k
  unfolding rounds stop with_iteration Step
  rounds_until zero i k s late = omega arith
  rounds_until (suc n) i zero s late = elim (rounds-Step n i s) [
    | inl (s', e) ↦ rw e (omega arith)
    | inr (it, s', t, inl (h, e)) ↦ rw e (omega arith)
    | inr (it, s', t, inr (h, e)) ↦
        rw e (rw (rounds_late n i s' (λ j after. late j (omega arith))) (omega arith))
  ]
  rounds_until (suc n) i (suc k) s late = elim (rounds-Step n i s) [
    | inl (s', e) ↦ rw e (omega arith)
    | inr (it, s', t, inl (h, e)) ↦ rw e (omega arith)
    | inr (it, s', t, inr (h, e)) ↦
        rw e (omega (arith, rounds_until n (suc i) k s' (λ j after. late j (omega arith))))
  ]

-- Only the last of the rounds may be sufficient.
unfoldable pub IsSettled : List PlanIteration → Type 0
IsSettled [] = Unit
IsSettled (it ∷ []) = Unit
IsSettled (it ∷ jt ∷ its) = (it.sufficient ≡ false) × IsSettled (jt ∷ its)

IsSettled-cons :
    (it : PlanIteration) (its : List PlanIteration)
    → it.sufficient ≡ false
    → IsSettled its
    → IsSettled (it ∷ its)
unfolding IsSettled
IsSettled-cons it [] h r = tt
IsSettled-cons it (jt ∷ its) h r = (h, r)

rounds-IsSettled :
    {A : Type 0} (c : Calls A) (deadline n i : ℕ) (s : State A)
    → IsSettled (rounds c deadline n i s).iterations
unfolding rounds stop with_iteration Step IsSettled
rounds-IsSettled c deadline zero i s = tt
rounds-IsSettled c deadline (suc n) i s = elim (rounds-Step c deadline n i s) [
  | inl (s', e) ↦ rw e tt
  | inr (it, s', t, inl (h, e)) ↦ rw e tt
  | inr (it, s', t, inr (h, e)) ↦
      rw e (IsSettled-cons it _ h (rounds-IsSettled c deadline n (suc i) s'))
]

-- The loop runs at most max(1, max_plan_iterations) rounds, whatever the calls of a round return,
-- and each of them but the last has found the evidence insufficient.
pub run_refinement_loop-IsSettled :
    {A : Type 0} (c : Calls A) (max_plan_iterations plan_deadline : ℤ) (deadline : Option ℕ)
    (now started ended : ℕ) (plan : ExecutionPlan) (budget : Option Budget)
    → let its =
        (run_refinement_loop c max_plan_iterations plan_deadline deadline now started ended plan
          budget).iterations in
      (length its ≤ clamp_one max_plan_iterations) × IsSettled its
unfolding run_refinement_loop
run_refinement_loop-IsSettled c max_plan_iterations plan_deadline deadline now started ended plan
      budget =
    (
      rounds_bounded c _ (clamp_one max_plan_iterations) 0 _,
      rounds-IsSettled c _ (clamp_one max_plan_iterations) 0 _,
    )

-- When the clock has reached the cutoff by every round after the `k`-th, counted from 0, no round
-- after the `k`-th is run.
pub run_refinement_loop-cutoff :
    {A : Type 0} (c : Calls A) (max_plan_iterations plan_deadline : ℤ) (deadline : Option ℕ)
    (now started ended k : ℕ) (plan : ExecutionPlan) (budget : Option Budget)
    → ((j : ℕ) → k < j → cutoff now plan_deadline deadline budget ≤ deadline_reading c j)
    → length
        (run_refinement_loop c max_plan_iterations plan_deadline deadline now started ended plan
          budget).iterations
      ≤ suc k
unfolding run_refinement_loop
run_refinement_loop-cutoff c max_plan_iterations plan_deadline deadline now started ended k plan
      budget late =
    rounds_until c (cutoff now plan_deadline deadline budget) (clamp_one max_plan_iterations) 0 k _
      (λ j after. late j (omega arith))

rounds_some :
    {A : Type 0} (c : Calls A) (deadline n : ℕ) (s : State A)
    → s.budget ≡ none
    → 1 ≤ n
    → 1 ≤ length (rounds c deadline n 0 s).iterations
unfolding rounds allows next_plan with_iteration
rounds_some c deadline zero s e some_left = absurd (omega arith)
rounds_some c deadline (suc n) s e some_left = rw (e, allows) (omega arith)

-- Without a budget at least one round is run, at any setting and any time.
pub run_refinement_loop-runs :
    {A : Type 0} (c : Calls A) (max_plan_iterations plan_deadline : ℤ) (deadline : Option ℕ)
    (now started ended : ℕ) (plan : ExecutionPlan)
    → 1
      ≤ length
          (run_refinement_loop c max_plan_iterations plan_deadline deadline now started ended plan
            none).iterations
unfolding run_refinement_loop
run_refinement_loop-runs c max_plan_iterations plan_deadline deadline now started ended plan =
    rounds_some c _ (clamp_one max_plan_iterations) _ refl (at_least_one max_plan_iterations)
