-- ===== src/Resilience/Breaker.antt =====
-- core/src/core/resilience/circuit_breaker.py, the class CircuitBreaker. Time is counted in ticks
-- of the monotonic clock; a method takes one argument for each reading of the clock it can make.
-- Logging is left out.
pub mod Invariant
pub mod Behaviour
mod Examples
use repo_agent.Prelude.{ℕ, ◌+◌, ◌-◌, Bool, Option, none, some, List, [], ◌∷◌, leb, if◌then◌else◌}
use repo_agent.Prelude.Int.{ℤ, clamp, clamp_one}

-- `open` is the source's word for `opened`.
pub data BreakerState : Type 0 where
  closed opened half_open : BreakerState

pub record Breaker : Type 0 where
  pub failure_threshold : ℕ
  pub cooldown : ℕ
  pub state : BreakerState
  pub consecutive_failures : ℕ
  pub opened_at : Option ℕ

-- __init__
unfoldable pub init : ℤ → ℤ → Breaker
init failure_threshold cooldown = record {
  failure_threshold = clamp_one failure_threshold;
  cooldown = clamp cooldown;
  state = closed;
  consecutive_failures = 0;
  opened_at = none;
}

-- now - opened_at >= cooldown
abbrev pub elapsed : ℕ → ℕ → ℕ → Bool
elapsed cooldown opened_at now = leb (opened_at + cooldown) now

half_open_after : Breaker → BreakerState → Option ℕ → ℕ → Breaker
half_open_after b opened (some t) now =
    if elapsed b.cooldown t now then record b { state = half_open } else b
half_open_after b _ _ now = b

unfoldable pub maybe_half_open : ℕ → Breaker → Breaker
unfolding half_open_after
maybe_half_open now b = half_open_after b b.state b.opened_at now

unfoldable pub trip : ℕ → Breaker → Breaker
trip now b = record b { state = opened; opened_at = some now }

-- The property `state`.
unfoldable pub read_state : ℕ → Breaker → BreakerState × Breaker
unfolding maybe_half_open
read_state now b = ((maybe_half_open now b).state, maybe_half_open now b)

pub record Snapshot : Type 0 where
  pub state : BreakerState
  pub consecutive_failures : ℕ
  pub cooldown_remaining : Option ℕ

-- max(0.0, cooldown - (now - opened_at))
remaining : Breaker → BreakerState → Option ℕ → ℕ → Option ℕ
remaining b opened (some t) now = some ((b.cooldown + t) - now)
remaining b _ _ now = none

unfoldable pub snapshot : ℕ → ℕ → Breaker → Snapshot × Breaker
unfolding read_state remaining
snapshot t₁ t₂ b =
    let (s, b') = read_state t₁ b in
    (
      record {
        state = s;
        consecutive_failures = b'.consecutive_failures;
        cooldown_remaining = remaining b' s b'.opened_at t₂;
      },
      b',
    )

-- What `guard` does: it returns, or raises CircuitBreakerOpenError with a snapshot.
pub data Admission : Type 0 where
  admitted : Admission
  rejected : Snapshot → Admission

reject : Snapshot × Breaker → Admission × Breaker
reject (s, b) = (rejected s, b)

guard_state : ℕ → ℕ → BreakerState → Breaker → Admission × Breaker
unfolding reject snapshot
guard_state t₂ t₃ opened b = reject (snapshot t₂ t₃ b)
guard_state t₂ t₃ _ b = (admitted, b)

unfoldable pub guard : ℕ → ℕ → ℕ → Breaker → Admission × Breaker
unfolding guard_state read_state
guard t₁ t₂ t₃ b = let (s, b') = read_state t₁ b in guard_state t₂ t₃ s b'

unfoldable pub record_success : Breaker → Breaker
record_success b = record b { state = closed; consecutive_failures = 0; opened_at = none }

fail_in : BreakerState → ℕ → Breaker → Breaker
unfolding trip
fail_in half_open now b = trip now b
fail_in _ now b =
    let b' : Breaker = record b { consecutive_failures = b.consecutive_failures + 1 } in
    if leb b.failure_threshold (b.consecutive_failures + 1) then trip now b' else b'

unfoldable pub record_failure : ℕ → Breaker → Breaker
unfolding fail_in
record_failure now b = fail_in b.state now b

-- How the factory of `run` ends: a result, an exception of _FAILURE_TYPES, or any other.
pub data Outcome {ℓ} (A : Type ℓ) : Type ℓ where
  returned : A → Outcome A
  failed : Outcome A
  raised : Outcome A

-- The part of `run` behind its guard. The outcome is passed on to the caller.
unfoldable pub complete {ℓ} : {A : Type ℓ} → Outcome A → ℕ → Breaker → Breaker
unfolding record_success record_failure
complete (returned a) now b = record_success b
complete failed now b = record_failure now b
complete raised now b = b

-- What can happen to a breaker that several tasks share: between the guard of one call and its
-- completion other calls may be guarded, read or completed.
pub data Event : Type 0 where
  reads : ℕ → Event
  asks : ℕ → ℕ → ℕ → Event
  completes : Outcome (Unit {0}) → ℕ → Event

unfoldable pub step : Event → Breaker → Breaker
unfolding read_state guard complete
step (reads t) b = (read_state t b).1
step (asks t₁ t₂ t₃) b = (guard t₁ t₂ t₃ b).1
step (completes o t) b = complete o t b

unfoldable pub run : List Event → Breaker → Breaker
unfolding step
run [] b = b
run (e ∷ es) b = run es (step e b)
