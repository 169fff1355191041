-- ===== src/Resilience/Registry.antt =====
-- core/src/core/resilience/circuit_breaker.py, the class CircuitBreakerRegistry: one breaker for
-- each agent, made on first use. Callers share the breaker that `get` returns, so what a call does
-- to it is written back under the agent's name by `update`.
mod Laws
mod Examples
use repo_agent.Prelude.{ℕ, String, Option, none, some, [], ◌∷◌}
use repo_agent.Prelude.Int.{ℤ}
use repo_agent.Prelude.Dict.{Dict, lookup, insert}
use repo_agent.Resilience.Breaker.{Breaker, Snapshot, init, snapshot}

pub record Registry : Type 0 where
  pub default_threshold : ℤ
  pub default_cooldown : ℤ
  pub per_agent : Dict (ℤ × ℤ)
  pub breakers : Dict Breaker

-- The overrides of `from_orchestrator_settings`: `breaker_for` of the four known agents.
unfoldable pub from_orchestrator_settings : ℤ → ℤ → (String → ℤ × ℤ) → Registry
unfolding insert
from_orchestrator_settings default_threshold default_cooldown breaker_for = record {
  default_threshold = default_threshold;
  default_cooldown = default_cooldown;
  per_agent = insert "memory" (breaker_for "memory") (
      insert "indexer" (breaker_for "indexer") (
        insert "code_analyst" (breaker_for "code_analyst")
          (insert "graph_query" (breaker_for "graph_query") [])));
  breakers = [];
}

settings_for : Registry → Option (ℤ × ℤ) → ℤ × ℤ
settings_for r none = (r.default_threshold, r.default_cooldown)
settings_for r (some c) = c

create : Registry → ℤ × ℤ → String → Breaker × Registry
create r (threshold, cooldown) agent =
    let b = init threshold cooldown in (b, record r { breakers = insert agent b r.breakers })

get_or_create : Option Breaker → Registry → String → Breaker × Registry
unfolding settings_for create
get_or_create (some b) r agent = (b, r)
get_or_create none r agent = create r (settings_for r (lookup agent r.per_agent)) agent

unfoldable pub get : String → Registry → Breaker × Registry
unfolding get_or_create
get agent r = get_or_create (lookup agent r.breakers) r agent

-- A method call on the breaker that `get agent` returned.
unfoldable pub update : String → (Breaker → Breaker) → Registry → Registry
unfolding get
update agent f r =
    let (b, r') = get agent r in record r' { breakers = insert agent (f b) r'.breakers }

snapshots : ℕ → ℕ → Dict Breaker → Dict (Snapshot × Breaker)
snapshots t₁ t₂ [] = []
snapshots t₁ t₂ ((name, b) ∷ rest) = (name, snapshot t₁ t₂ b) ∷ snapshots t₁ t₂ rest

-- Each breaker's snapshot, and the breaker that reading it leaves.
unfoldable pub snapshot_all : ℕ → ℕ → Registry → Dict (Snapshot × Breaker)
unfolding snapshots
snapshot_all t₁ t₂ r = snapshots t₁ t₂ r.breakers
