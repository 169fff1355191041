-- ===== src/Resilience/Breaker/Behaviour.antt =====
-- When a breaker opens, how long it rejects calls, and what its probe does.
use repo_agent.Prelude.{
  ℕ, ◌+◌, ◌≤◌, ◌<◌, ◌≡◌, refl, subst, inl, inr, Bool, true, false, none, some, List, [], ◌∷◌, arith,
  ltb, leb, if◌then◌else◌, Bool-cases, All,
}
use repo_agent.Resilience.Breaker.{
  Breaker, BreakerState, closed, opened, half_open, Admission, admitted, rejected, maybe_half_open,
  guard, complete, Event, reads, asks, completes, step, run, returned, failed, raised,
  record_failure, record_success,
}

-- The events of a run of failures: any guard or read, and any completion but a success.
abbrev pub IsNoSuccess : Event → Type 0
IsNoSuccess (reads t) = Unit
IsNoSuccess (asks t₁ t₂ t₃) = Unit
IsNoSuccess (completes (returned a) t) = ⊥
IsNoSuccess (completes failed t) = Unit
IsNoSuccess (completes raised t) = Unit

-- How many of the calls failed.
unfoldable pub failures : List Event → ℕ
failures [] = 0
failures (completes failed t ∷ es) = failures es + 1
failures (e ∷ es) = failures es

unfoldable pub is_closed : BreakerState → Bool
is_closed closed = true
is_closed opened = false
is_closed half_open = false

-- A closed breaker has counted the n failures, which are fewer than its threshold; any other has seen
-- at least as many.
abbrev Tally : BreakerState → ℕ → ℕ → ℕ → Type 0
Tally closed count threshold n = (count ≡ n) × (n < threshold)
Tally opened count threshold n = threshold ≤ n
Tally half_open count threshold n = threshold ≤ n

abbrev HasSeen : ℕ → ℕ → Breaker → Type 0
HasSeen threshold n b =
    (b.failure_threshold ≡ threshold) × Tally b.state b.consecutive_failures b.failure_threshold n

maybe_half_open-HasSeen :
    (t threshold n : ℕ) (b : Breaker)
    → HasSeen threshold n b
    → HasSeen threshold n (maybe_half_open t b)
unfolding maybe_half_open
maybe_half_open-HasSeen t threshold n b h = ground arith

guard-HasSeen :
    (t₁ t₂ t₃ threshold n : ℕ) (b : Breaker)
    → HasSeen threshold n b
    → HasSeen threshold n (guard t₁ t₂ t₃ b).1
unfolding guard
guard-HasSeen t₁ t₂ t₃ threshold n b h = ground arith

record_failure-HasSeen :
    (t threshold n : ℕ) (b : Breaker)
    → HasSeen threshold n b
    → HasSeen threshold (n + 1) (record_failure t b)
unfolding record_failure
record_failure-HasSeen t threshold n b h = ground arith

run-HasSeen :
    (es : List Event) (threshold n : ℕ) (b : Breaker)
    → All IsNoSuccess es
    → HasSeen threshold n b
    → HasSeen threshold (n + failures es) (run es b)
unfolding run step failures
run-HasSeen [] threshold n b f h = subst (λ k. HasSeen threshold k b) (omega arith) h
run-HasSeen (reads t ∷ es) threshold n b f h =
    run-HasSeen es threshold n (maybe_half_open t b) f.1 (maybe_half_open-HasSeen t threshold n b h)
run-HasSeen (asks t₁ t₂ t₃ ∷ es) threshold n b f h =
    run-HasSeen es threshold n (guard t₁ t₂ t₃ b).1 f.1 (guard-HasSeen t₁ t₂ t₃ threshold n b h)
run-HasSeen (completes (returned a) t ∷ es) threshold n b f h = absurd f.0
run-HasSeen (completes failed t ∷ es) threshold n b f h =
    subst (λ k. HasSeen threshold k (run es (record_failure t b))) (omega arith)
      (run-HasSeen es threshold (n + 1) (record_failure t b) f.1
        (record_failure-HasSeen t threshold n b h))
run-HasSeen (completes raised t ∷ es) threshold n b f h = run-HasSeen es threshold n b f.1 h

HasSeen-is_closed :
    (threshold n : ℕ) (b : Breaker) → HasSeen threshold n b → is_closed b.state ≡ ltb n threshold
unfolding is_closed
HasSeen-is_closed threshold n b h = ground arith

HasSeen-failure :
    (threshold n t : ℕ) (b : Breaker)
    → HasSeen threshold n b
    → (record_failure t b).state ≡ (if leb threshold (n + 1) then opened else closed)
unfolding record_failure
HasSeen-failure threshold n t b h = ground arith

-- Take a breaker whose threshold is at least one, as __init__ makes it. After a call that succeeds
-- and any sequence of guards, reads, failures and other exceptions, in any order and at any times, it
-- is closed exactly while fewer calls of that sequence have failed than the threshold says; and one
-- more failure leaves it open if it is then the threshold's number of failures or more, and closed if
-- not.
pub run-failing-opens :
    (b : Breaker) (s t : ℕ) (es : List Event)
    → 1 ≤ b.failure_threshold
    → All IsNoSuccess es
    → let after = run (completes (returned tt) s ∷ es) b in
      (is_closed after.state ≡ ltb (failures es) b.failure_threshold)
      × ((step (completes failed t) after).state
          ≡ (if leb b.failure_threshold (failures es + 1) then opened else closed))
unfolding run step record_success
run-failing-opens b s t es p f =
    let after = run es (record_success b) in
    let h =
      subst (λ n. HasSeen b.failure_threshold n after) (omega arith)
        (run-HasSeen es b.failure_threshold 0 (record_success b) f (refl, (refl, p))) in
    (
      HasSeen-is_closed b.failure_threshold (failures es) after h,
      HasSeen-failure b.failure_threshold (failures es) t after h,
    )

-- The events that keep an open breaker open: any guard, read or failure before `limit`, the failures
-- not before `start`. A call that succeeds late would close it.
abbrev pub Before : ℕ → ℕ → Event → Type 0
Before start limit (reads t) = t < limit
Before start limit (asks t₁ t₂ t₃) = (t₁ < limit) × (t₂ < limit) × (t₃ < limit)
Before start limit (completes (returned a) t) = ⊥
Before start limit (completes failed t) = start ≤ t
Before start limit (completes raised t) = Unit

maybe_half_open-opened :
    (now : ℕ) (b : Breaker) (t : ℕ)
    → b.state ≡ opened
    → b.opened_at ≡ some t
    → now < t + b.cooldown
    → maybe_half_open now b ≡ b
unfolding maybe_half_open
maybe_half_open-opened now b t h e k = ground arith

abbrev pub IsRejected : Admission → Type 0
IsRejected admitted = ⊥
IsRejected (rejected s) = Unit

guard-opened :
    (t₁ t₂ t₃ : ℕ) (b : Breaker) (t : ℕ)
    → b.state ≡ opened
    → b.opened_at ≡ some t
    → t₁ < t + b.cooldown
    → t₂ < t + b.cooldown
    → ((guard t₁ t₂ t₃ b).1 ≡ b) × IsRejected (guard t₁ t₂ t₃ b).0
unfolding guard
guard-opened t₁ t₂ t₃ b t h e k l = ground arith

-- The breaker is open since `since`, which is `start` or later.
abbrev pub OpenSince : ℕ → ℕ → Breaker → Type 0
OpenSince start cooldown b =
    (since : ℕ) × (start ≤ since)
    × (b.cooldown ≡ cooldown)
    × (b.state ≡ opened)
    × (b.opened_at ≡ some since)

record_failure-OpenSince :
    (start cooldown t : ℕ) (b : Breaker)
    → start ≤ t
    → OpenSince start cooldown b
    → OpenSince start cooldown (record_failure t b)
unfolding record_failure
record_failure-OpenSince start cooldown t b h (s, l, k, o, a) =
    elim (Bool-cases (leb b.failure_threshold (b.consecutive_failures + 1))) [
      | inl trips ↦ (t, h, ground arith, ground arith, ground arith)
      | inr stays ↦ (s, l, ground arith, ground arith, ground arith)
    ]

step-OpenSince :
    (start cooldown : ℕ) (e : Event) (b : Breaker)
    → Before start (start + cooldown) e
    → OpenSince start cooldown b
    → OpenSince start cooldown (step e b)
unfolding step
step-OpenSince start cooldown (reads t) b h (s, l, k, o, a) =
    rw (maybe_half_open-opened t b s o a (omega arith)) (s, l, k, o, a)
step-OpenSince start cooldown (asks t₁ t₂ t₃) b h (s, l, k, o, a) =
    rw ((guard-opened t₁ t₂ t₃ b s o a (omega arith) (omega arith)).0) (s, l, k, o, a)
step-OpenSince start cooldown (completes (returned a) t) b h o = absurd h
step-OpenSince start cooldown (completes failed t) b h o =
    record_failure-OpenSince start cooldown t b h o
step-OpenSince start cooldown (completes raised t) b h o = o

run-OpenSince :
    (start cooldown : ℕ) (es : List Event) (b : Breaker)
    → All (Before start (start + cooldown)) es
    → OpenSince start cooldown b
    → OpenSince start cooldown (run es b)
unfolding run
run-OpenSince start cooldown [] b h o = o
run-OpenSince start cooldown (e ∷ es) b h o =
    run-OpenSince start cooldown es (step e b) h.1 (step-OpenSince start cooldown e b h.0 o)

-- A breaker that is open since `start` rejects a guard whose first two clock readings are before
-- `start + cooldown`, and the guard changes nothing, after any sequence of other events in which all
-- readings are before that time too, no failure is recorded before `start`, and no call succeeds.
pub run-fails_fast :
    (start : ℕ) (es : List Event) (b : Breaker) (t₁ t₂ t₃ : ℕ)
    → b.state ≡ opened
    → b.opened_at ≡ some start
    → All (Before start (start + b.cooldown)) es
    → t₁ < start + b.cooldown
    → t₂ < start + b.cooldown
    → ((guard t₁ t₂ t₃ (run es b)).1 ≡ run es b) × IsRejected (guard t₁ t₂ t₃ (run es b)).0
run-fails_fast start es b t₁ t₂ t₃ o a h k₁ k₂ =
    let (s, l, k, o', a') =
      run-OpenSince start b.cooldown es b h (start, omega arith, refl, o, a) in
    guard-opened t₁ t₂ t₃ (run es b) s o' a' (omega arith) (omega arith)

-- A guard at or after the end of the cooldown of an open breaker admits the call and leaves the
-- breaker half open. If that call fails at `u`, the breaker is open again from `u`, with the same
-- failure count; if it succeeds, the breaker is closed with a count of zero.
pub guard-probes :
    (b : Breaker) (t t₁ t₂ t₃ u : ℕ)
    → b.state ≡ opened
    → b.opened_at ≡ some t
    → t + b.cooldown ≤ t₁
    → let b' = (guard t₁ t₂ t₃ b).1 in
      ((guard t₁ t₂ t₃ b).0 ≡ admitted)
      × (b'.state ≡ half_open)
      × (complete {A = Unit {0}} failed u b' ≡ record b { opened_at = some u })
      × (complete {A = Unit {0}} (returned tt) u b'
          ≡ record b { state = closed; consecutive_failures = 0; opened_at = none })
unfolding guard complete
guard-probes b t t₁ t₂ t₃ u o a k = ground arith
