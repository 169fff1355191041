-- ===== src/Resilience/Registry/Examples.antt =====
-- A registry with one override, for the agent "memory".
use repo_agent.Prelude.{◌≡◌, refl, [], ◌∷◌}
use repo_agent.Prelude.Int.{pos}
use repo_agent.Prelude.Dict.{lookup}
use repo_agent.Resilience.Breaker.{init}
use repo_agent.Resilience.Registry.{Registry, get}

abbrev registry : Registry
registry = record {
  default_threshold = pos 3;
  default_cooldown = pos 30;
  per_agent = ("memory", (pos 1, pos 5)) ∷ [];
  breakers = [];
}

override_applies : (get "memory" registry).0.failure_threshold ≡ 1
unfolding get lookup init
override_applies = refl
