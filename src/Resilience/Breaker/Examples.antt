-- ===== src/Resilience/Breaker/Examples.antt =====
-- The breaker at a threshold of 2 and a cooldown of 30 ticks.
use repo_agent.Prelude.{◌≡◌, refl, true, none, some, List, [], ◌∷◌, arith}
use repo_agent.Prelude.Int.{pos, negsuc}
use repo_agent.Resilience.Breaker.{
  Breaker, closed, opened, guard, Event, reads, asks, completes, step, run, init, returned, failed,
}
use repo_agent.Resilience.Breaker.Invariant.{IsWellFormed, run-init-IsWellFormed}
use repo_agent.Resilience.Breaker.Behaviour.{
  is_closed, run-failing-opens, run-fails_fast, IsRejected, failures,
}

abbrev fresh : Breaker
fresh = record {
  failure_threshold = 2;
  cooldown = 30;
  state = closed;
  consecutive_failures = 0;
  opened_at = none;
}

abbrev tripped : Breaker
tripped = record fresh { state = opened; consecutive_failures = 2; opened_at = some 105 }

abbrev history : List Event
history = asks 90 90 90 ∷ completes failed 100 ∷ completes failed 105 ∷ reads 120 ∷ []

starts_closed : init (pos 2) (pos 30) ≡ fresh
unfolding init
starts_closed = refl

opens_at_threshold : run history fresh ≡ tripped
unfolding run
opens_at_threshold = refl

clamps_settings : init (negsuc 4) (negsuc 4) ≡ record fresh { failure_threshold = 1; cooldown = 0 }
unfolding init
clamps_settings = refl

run-init-IsWellFormed_example : IsWellFormed (run history (init (pos 2) (pos 30)))
run-init-IsWellFormed_example = run-init-IsWellFormed (pos 2) (pos 30) history

abbrev failing_calls : List Event
failing_calls = asks 98 98 98 ∷ completes failed 100 ∷ reads 101 ∷ asks 102 102 102 ∷ []

run-failing-opens_example :
    (is_closed (run (completes (returned tt) 95 ∷ failing_calls) fresh).state ≡ true)
    × ((step (completes failed 105) (run (completes (returned tt) 95 ∷ failing_calls) fresh)).state
        ≡ opened)
unfolding failures
run-failing-opens_example =
    run-failing-opens fresh 95 105 failing_calls (omega arith) (tt, (tt, (tt, (tt, tt))))

run-fails_fast_example :
    ((guard 134 134 136 (run (completes failed 106 ∷ reads 107 ∷ []) tripped)).1
      ≡ run (completes failed 106 ∷ reads 107 ∷ []) tripped)
    × IsRejected (guard 134 134 136 (run (completes failed 106 ∷ reads 107 ∷ []) tripped)).0
run-fails_fast_example =
    run-fails_fast 105 (completes failed 106 ∷ reads 107 ∷ []) tripped 134 134 136 refl refl
      (omega arith) (omega arith) (omega arith)
