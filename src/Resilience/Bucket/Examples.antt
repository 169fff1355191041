-- ===== src/Resilience/Bucket/Examples.antt =====
-- A bucket of two sessions, 7 and 8.
use repo_agent.Prelude.{ℕ, ◌+◌, ◌≤◌, ◌≡◌, refl, false, none, some, [], ◌∷◌, arith, length}
use repo_agent.Resilience.Bucket.{
  Bucket, reused, created, exhausted, acquire, release, drop, init, open_returned,
}
use repo_agent.Resilience.Bucket.Counts.{count}
use repo_agent.Resilience.Bucket.Steps.{System, Reach, here, next, create, finish_open, start}
use repo_agent.Resilience.Bucket.Accounting.{Accounts, Reach-capacity}
use repo_agent.Resilience.Bucket.DoubleDrop.{drop_twice-exceeds}

abbrev full : Bucket
full = record { max_size = 2; idle = []; live = 7 ∷ 8 ∷ []; size = 2; closed = false }

deadline_passed : acquire (some 90) 95 full ≡ (exhausted, full)
unfolding acquire
deadline_passed = refl

last_released_first : (acquire none 5 (release 7 (release 8 full))).0 ≡ reused 7
unfolding acquire release
last_released_first = refl

abbrev leased : System
leased = record { bucket = full; opening = 0; leased = 8 ∷ 7 ∷ [] }

opened_one : Reach (start 2) (record {
  bucket = record { max_size = 2; idle = []; live = 7 ∷ []; size = 1; closed = false };
  opening = 0;
  leased = 7 ∷ [];
})
unfolding init acquire open_returned count
opened_one =
    next (next here (create none 0 _ refl refl)) (finish_open 7 (omega arith) refl refl refl)

Reach-capacity_example : (1 + 0 ≤ 2) × ((s : ℕ) → count s [] + count s (7 ∷ []) ≤ 1)
Reach-capacity_example = Reach-capacity 2 _ opened_one refl

leased-Accounts : Accounts leased
unfolding count
leased-Accounts = record {
  bounded = omega arith;
  while_open =
      λ h. record { sized = omega arith; split = λ s. omega arith; distinct = λ s. ground arith };
  when_closed = λ h. cc;
}

drop_twice-exceeds_example :
    let first = acquire none 0 (drop 7 (drop 7 full)) in
    let second = acquire none 1 first.1 in
    (first.0 ≡ created) × (second.0 ≡ created) × (length second.1.live + 2 ≡ second.1.max_size + 1)
unfolding count
drop_twice-exceeds_example =
    drop_twice-exceeds full 7 0 1 none none refl refl refl refl (omega arith) refl
