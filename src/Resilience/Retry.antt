-- ===== src/Resilience/Retry.antt =====
-- core/src/core/resilience/retry.py: `await_with_timeout_retry` over the ends of its attempts. The
-- factory is a function from the number of the attempt to how that attempt ends.
pub mod Laws
mod Examples
use repo_agent.Prelude.{ℕ, zero, suc, ◌+◌, Bool, Option, none, some, leb, if◌then◌else◌}
use repo_agent.Prelude.Int.{ℤ, clamp}

-- How the task of one attempt ends: within the timeout with a result, with one of the `transient`
-- exceptions or another, or cancelled, by the caller or inside the client; or not within the timeout.
pub data Attempt {ℓ} (A : Type ℓ) (E : Type ℓ) : Type ℓ where
  finished : A → Attempt A E
  timed_out : Attempt A E
  caller_cancelled : Attempt A E
  torn_down : Attempt A E
  transient : E → Attempt A E
  fatal : E → Attempt A E

-- `unassigned` is the AssertionError of the last two lines.
pub data Raised {ℓ} (E : Type ℓ) : Type ℓ where
  timeout_error : Raised E
  connection_error : Raised E
  cancelled_error : Raised E
  other : E → Raised E
  unassigned : Raised E

pub data Ended {ℓ} (A : Type ℓ) (E : Type ℓ) : Type ℓ where
  value : A → Ended A E
  raises : Raised E → Ended A E

-- One round of the loop leaves it, or goes on with `last_exc` set.
pub data Round {ℓ} (A : Type ℓ) (E : Type ℓ) : Type ℓ where
  leaves : Ended A E → Round A E
  goes_on : Raised E → Round A E

last_error {ℓ} : {E : Type ℓ} → Option (Raised E) → Raised E
last_error none = unassigned
last_error (some e) = e

module _ {ℓ} {A E : Type ℓ} where
  retry_unless_last : Bool → Raised E → Round A E
  retry_unless_last last e = if last then leaves (raises e) else goes_on e

  unfoldable pub round : Bool → Attempt A E → Round A E
  unfolding retry_unless_last
  round last (finished a) = leaves (value a)
  round last timed_out = retry_unless_last last timeout_error
  round last caller_cancelled = leaves (raises cancelled_error)
  round last torn_down = retry_unless_last last connection_error
  round last (transient e) = retry_unless_last last (other e)
  round last (fatal e) = leaves (raises (other e))

  -- for attempt in range(attempts), with the rounds that are left. The second part of the result is
  -- the number of attempts that were made.
  unfoldable pub attempt_from : (ℕ → Attempt A E) → ℕ → ℕ → ℕ → Option (Raised E) → Ended A E × ℕ
  unfolding last_error round
  attempt_from factory attempts zero attempt last_exc = (raises (last_error last_exc), attempt)
  attempt_from factory attempts (suc left) attempt last_exc =
      elim (round (leb attempts (attempt + 1)) (factory attempt)) [
        | leaves r ↦ (r, attempt + 1)
        | goes_on e ↦ attempt_from factory attempts left (attempt + 1) (some e)
      ]

  unfoldable pub await_with_timeout_retry : (ℕ → Attempt A E) → ℤ → Ended A E × ℕ
  unfolding attempt_from
  await_with_timeout_retry factory retry_count =
      attempt_from factory (clamp retry_count + 1) (clamp retry_count + 1) 0 none
