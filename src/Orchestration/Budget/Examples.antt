-- ===== src/Orchestration/Budget/Examples.antt =====
-- A budget of 55 seconds and 100 tokens, with 20 seconds for the synthesis.
use repo_agent.Prelude.{◌+◌, ◌≤◌, ◌<◌, ◌≡◌, refl, true, none, some, [], ◌∷◌, arith}
use repo_agent.Prelude.Int.{pos, negsuc}
use repo_agent.Prelude.Dict.{lookup}
use repo_agent.Observability.Ledger.{Ledger, empty_entry, snapshot}
use repo_agent.Orchestration.Budget.{
  Budget, Settings, tokens, from_settings, check, allow_new_call, remaining, specialist_remaining,
  apply_prompt_reserve, synthesis_timeout,
}
use repo_agent.Orchestration.Budget.Reserve.{allow_new_call-reserves}

abbrev settings : Settings
settings = record {
  request_budgets_enabled = true;
  request_deadline = pos 55000;
  request_token_budget = pos 100;
  request_cost_max = negsuc 0;
  synthesis_reserve = pos 20000;
  synthesis_safety_margin = pos 2000;
  synthesis_min_timeout = pos 0;
  synthesis_timeout = pos 20000;
}

abbrev budget : Budget
budget = record {
  deadline_monotonic = 56000;
  token_ceiling = some 100;
  cost_max = none;
  safety_margin = 2000;
  min_synthesis_timeout = 0;
  max_synthesis_timeout = 20000;
  synthesis_reserve = 20000;
  exhausted = none;
  started_monotonic = 1000;
  plan_duration = 0;
  base_synthesis_reserve = 20000;
}

abbrev spent : Ledger
spent = ("r", record empty_entry { total = 120 }) ∷ []

made_from_settings : from_settings settings 1000 ≡ budget
unfolding from_settings
made_from_settings = refl

bulky_prompt : (apply_prompt_reserve 6000 budget).synthesis_reserve ≡ 24000
unfolding apply_prompt_reserve
bulky_prompt = refl

bulky_timeout : synthesis_timeout 20000 (some 6000) budget ≡ 24000
unfolding synthesis_timeout
bulky_timeout = refl

tokens_trip : (check (some spent) "r" 2000 budget).0 ≡ some tokens
unfolding check snapshot lookup
tokens_trip = refl

allow_new_call-reserves_example : (30000 + 20000 < 56000) × (20000 ≤ remaining 36000 budget)
unfolding allow_new_call check specialist_remaining
allow_new_call-reserves_example =
    allow_new_call-reserves none "r" 30000 30000 36000 budget refl (omega arith)
