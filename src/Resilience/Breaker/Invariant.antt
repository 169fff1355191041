-- ===== src/Resilience/Breaker/Invariant.antt =====
-- What holds of a breaker at every moment, whatever the calls that share it do.
use repo_agent.Prelude.{ℕ, zero, suc, ◌≤◌, ◌<◌, Option, none, some, List, [], ◌∷◌, arith}
use repo_agent.Prelude.Int.{ℤ, pos, negsuc, clamp_one}
use repo_agent.Resilience.Breaker.{
  Breaker, BreakerState, closed, opened, half_open, init, maybe_half_open, guard, Event, reads,
  asks, completes, step, run, returned, failed, raised, record_failure,
}

-- A closed breaker is below its threshold and has no opening time; any other has reached the
-- threshold and knows when it was opened.
abbrev pub Shape : BreakerState → ℕ → ℕ → Option ℕ → Type 0
Shape closed failures threshold none = failures < threshold
Shape closed failures threshold (some t) = ⊥
Shape opened failures threshold (some t) = threshold ≤ failures
Shape opened failures threshold none = ⊥
Shape half_open failures threshold (some t) = threshold ≤ failures
Shape half_open failures threshold none = ⊥

pub record IsWellFormed (b : Breaker) : Type 0 where
  pub positive : 1 ≤ b.failure_threshold
  pub shape : Shape b.state b.consecutive_failures b.failure_threshold b.opened_at

clamp_one_pos : (z : ℤ) → 1 ≤ clamp_one z
clamp_one_pos (pos zero) = omega arith
clamp_one_pos (pos (suc n)) = omega arith
clamp_one_pos (negsuc n) = omega arith

pub init-IsWellFormed : (threshold cooldown : ℤ) → IsWellFormed (init threshold cooldown)
unfolding init
init-IsWellFormed threshold cooldown = record {
  positive = clamp_one_pos threshold;
  shape = clamp_one_pos threshold;
}

maybe_half_open-IsWellFormed :
    (now : ℕ) (b : Breaker) → IsWellFormed b → IsWellFormed (maybe_half_open now b)
unfolding maybe_half_open
maybe_half_open-IsWellFormed now b v = ground arith

guard-IsWellFormed :
    (t₁ t₂ t₃ : ℕ) (b : Breaker) → IsWellFormed b → IsWellFormed (guard t₁ t₂ t₃ b).1
unfolding guard
guard-IsWellFormed t₁ t₂ t₃ b v = ground arith

record_failure-IsWellFormed :
    (now : ℕ) (b : Breaker) → IsWellFormed b → IsWellFormed (record_failure now b)
unfolding record_failure
record_failure-IsWellFormed now b v = ground arith

pub step-IsWellFormed : (e : Event) (b : Breaker) → IsWellFormed b → IsWellFormed (step e b)
unfolding step
step-IsWellFormed (reads t) b v = maybe_half_open-IsWellFormed t b v
step-IsWellFormed (asks t₁ t₂ t₃) b v = guard-IsWellFormed t₁ t₂ t₃ b v
step-IsWellFormed (completes (returned a) t) b v = record {
  positive = v.positive;
  shape = v.positive;
}
step-IsWellFormed (completes failed t) b v = record_failure-IsWellFormed t b v
step-IsWellFormed (completes raised t) b v = v

pub run-IsWellFormed : (es : List Event) (b : Breaker) → IsWellFormed b → IsWellFormed (run es b)
unfolding run
run-IsWellFormed [] b v = v
run-IsWellFormed (e ∷ es) b v = run-IsWellFormed es (step e b) (step-IsWellFormed e b v)

-- After any interleaving of guards, reads and completions on a new breaker, with any configured
-- threshold and cooldown, the threshold is at least 1, a closed breaker is below it with no opening
-- time recorded, and an open or half-open breaker has reached it and has an opening time.
pub run-init-IsWellFormed :
    (threshold cooldown : ℤ) (es : List Event) → IsWellFormed (run es (init threshold cooldown))
run-init-IsWellFormed threshold cooldown es =
    run-IsWellFormed es (init threshold cooldown) (init-IsWellFormed threshold cooldown)
