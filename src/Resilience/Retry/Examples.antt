-- ===== src/Resilience/Retry/Examples.antt =====
-- An attempt that times out, then one that is torn down, then a result.
use repo_agent.Prelude.{ℕ, zero, suc, String, ◌≡◌, refl}
use repo_agent.Prelude.Int.{pos, negsuc}
use repo_agent.Resilience.Retry.{
  Attempt, finished, timed_out, torn_down, await_with_timeout_retry, value, raises,
  connection_error, timeout_error,
}

abbrev flaky : ℕ → Attempt ℕ String
flaky zero = timed_out
flaky (suc zero) = torn_down
flaky (suc (suc n)) = finished n

third_attempt : await_with_timeout_retry flaky (pos 5) ≡ (value 0, 3)
unfolding await_with_timeout_retry
third_attempt = refl

second_raises : await_with_timeout_retry flaky (pos 1) ≡ (raises connection_error, 2)
unfolding await_with_timeout_retry
second_raises = refl

no_retry : await_with_timeout_retry flaky (negsuc 3) ≡ (raises timeout_error, 1)
unfolding await_with_timeout_retry
no_retry = refl
