-- ===== src/Llm/Pricing/Laws.antt =====
-- The cost of a call against its cost with no cache, and where its rates come from.
use repo_agent.Prelude.{ℕ, ◌+◌, ◌-◌, ◌*◌, ◌≤◌, ◌≡◌, arith}
use repo_agent.Llm.Pricing.{ModelRates, cost_usd}

bill_split :
    (uncached cached q saving rest : ℕ)
    → uncached * (q + saving) + cached * q + rest + cached * saving
      ≡ (uncached + cached) * (q + saving) + 0 * q + rest
bill_split uncached cached q saving rest = omega arith

-- Where the cached rate is at most the prompt rate, a call is cheaper than the same call with no
-- cached prompt tokens by exactly the difference of the two rates for each token from the cache,
-- provided that these are no more than the prompt tokens.
pub cost_usd-cached :
    (prompt completion cached : ℕ) (r : ModelRates)
    → cached ≤ prompt
    → r.cached_prompt ≤ r.prompt
    → cost_usd prompt completion cached r + cached * (r.prompt - r.cached_prompt)
      ≡ cost_usd prompt completion 0 r
unfolding cost_usd
cost_usd-cached prompt completion cached r h k =
    let rates : r.cached_prompt + (r.prompt - r.cached_prompt) ≡ r.prompt = omega arith in
    let tokens : (prompt - cached) + cached ≡ prompt - 0 = omega arith in
    rw (rates, tokens) at
      (bill_split (prompt - cached) cached r.cached_prompt (r.prompt - r.cached_prompt)
        (completion * r.completion))
