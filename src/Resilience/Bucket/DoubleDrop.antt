-- ===== src/Resilience/Bucket/DoubleDrop.antt =====
-- What happens when one session is dropped twice, as when `call` discards the session of a timed-out
-- attempt (`discard_nowait`) and the abandoned attempt, which ignores its cancellation, fails later
-- and drops it too.
use repo_agent.Prelude.{ℕ, ◌+◌, ◌≤◌, ◌≡◌, false, Option, [], arith, length}
use repo_agent.Resilience.Bucket.{Bucket, created, acquire, drop, contains, remove_if_in}
use repo_agent.Resilience.Bucket.Counts.{
  count, length-remove_if_in, count-remove_if_in, contains-count,
}

-- A full open bucket with no idle session, of whose sessions one is dropped twice, lets two callers
-- open a new session each, so that it has one session more than `max_size`.
pub drop_twice-exceeds :
    (b : Bucket) (s t₁ t₂ : ℕ) (d₁ d₂ : Option ℕ)
    → b.closed ≡ false
    → b.idle ≡ []
    → b.size ≡ length b.live
    → b.size ≡ b.max_size
    → 2 ≤ b.max_size
    → count s b.live ≡ 1
    → let first = acquire d₁ t₁ (drop s (drop s b)) in
      let second = acquire d₂ t₂ first.1 in
      (first.0 ≡ created)
      × (second.0 ≡ created)
      × (length second.1.live + 2 ≡ second.1.max_size + 1)
unfolding acquire drop contains
drop_twice-exceeds b s t₁ t₂ d₁ d₂ c i e f m k = ground (
  arith,
  length-remove_if_in s b.live,
  count-remove_if_in s s b.live,
  contains-count s (remove_if_in s b.live),
)
