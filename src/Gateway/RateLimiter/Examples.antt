-- ===== src/Gateway/RateLimiter/Examples.antt =====
-- Two requests in ten ticks, for each key.
use repo_agent.Prelude.{ℕ, ◌≤◌, String, ◌≡◌, refl, true, false, List, [], ◌∷◌, arith}
use repo_agent.Prelude.Int.{pos}
use repo_agent.Prelude.Dict.{lookup, insert}
use repo_agent.Gateway.RateLimiter.{answers, init, evict}
use repo_agent.Gateway.RateLimiter.Window.{granted, within, ideal}
use repo_agent.Gateway.RateLimiter.Refinement.{answers-refine, within-answers}

abbrev burst : List (String × ℕ)
burst = ("a", 5) ∷ ("a", 6) ∷ ("b", 7) ∷ ("a", 14) ∷ ("a", 15) ∷ []

third_refused : answers burst (init (pos 2) 10) ≡ true ∷ true ∷ true ∷ false ∷ true ∷ []
unfolding answers lookup insert evict
third_refused = refl

within-answers_example : within 10 "a" 5 (granted burst (answers burst (init (pos 2) 10)) []) ≤ 2
within-answers_example = within-answers (pos 2) 10 5 "a" burst (omega arith) (omega arith)

answers-refine_example : answers burst (init (pos 2) 10) ≡ ideal 2 10 burst []
answers-refine_example = answers-refine (pos 2) 10 burst (omega arith) (omega arith)
