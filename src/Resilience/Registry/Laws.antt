-- ===== src/Resilience/Registry/Laws.antt =====
-- What callers of the registry can rely on.
use repo_agent.Prelude.{String, ◌≡◌, arith, str_eq, eq_iff, if◌then◌else◌}
use repo_agent.Prelude.Dict.{lookup-insert}
use repo_agent.Resilience.Breaker.{Breaker}
use repo_agent.Resilience.Registry.{Registry, get, update}

-- After any call on one agent's breaker, `get` of that agent returns the breaker as the call left
-- it, and `get` of every other agent returns the breaker that it returned before the call, whether or
-- not either breaker existed.
pub get-update :
    (agent j : String) (f : Breaker → Breaker) (r : Registry)
    → (get j (update agent f r)).0 ≡ (if str_eq agent j then f (get agent r).0 else (get j r).0)
unfolding update
get-update agent j f r = ground (
  arith,
  eq_iff agent j,
  lookup-insert agent j (f (get agent r).0) (get agent r).1.breakers,
  lookup-insert agent j (get agent r).0 r.breakers,
)
