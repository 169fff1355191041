-- ===== src/Orchestration/Budget.antt =====
-- core/src/core/orchestration/budget.py. Times and durations are milliseconds of the monotonic clock,
-- so that 0.002 s for each token is 2; costs are billionths of a USD. Settings may be negative, and are
-- clamped where the source clamps them. A method takes the clock's reading, `now`.
pub mod Reserve
pub mod Ceilings
mod Examples
use repo_agent.Prelude.{
  ℕ, ◌+◌, ◌-◌, ◌*◌, min, max, String, Bool, false, ◌&&◌, Option, none, some, ltb, leb, ◌==◌,
  if◌then◌else◌,
}
use repo_agent.Prelude.Int.{ℤ, pos, clamp}
use repo_agent.Observability.Ledger.{Ledger, snapshot}

pub data Ceiling : Type 0 where
  deadline tokens cost : Ceiling

abbrev pub reference_synthesis_prompt_tokens : ℕ
reference_synthesis_prompt_tokens = 4000

abbrev pub synthesis_extra_ms_per_token : ℕ
synthesis_extra_ms_per_token = 2

abbrev pub unlimited_deadline : ℤ
unlimited_deadline = pos 86400000

unfoldable pub scaled_synthesis_reserve : ℕ → ℕ → ℕ
scaled_synthesis_reserve prompt_tokens base_reserve =
    base_reserve
    + (prompt_tokens - reference_synthesis_prompt_tokens) * synthesis_extra_ms_per_token

pub record Budget : Type 0 where
  pub deadline_monotonic : ℕ
  pub token_ceiling : Option ℕ
  pub cost_max : Option ℕ
  pub safety_margin : ℕ
  pub min_synthesis_timeout : ℕ
  pub max_synthesis_timeout : ℕ
  pub synthesis_reserve : ℕ
  pub exhausted : Option Ceiling
  pub started_monotonic : ℕ
  pub plan_duration : ℕ
  pub base_synthesis_reserve : ℕ

-- __post_init__
unfoldable pub post_init : Budget → Budget
post_init b =
    if b.base_synthesis_reserve == 0 && ltb 0 b.synthesis_reserve
    then record b { base_synthesis_reserve = b.synthesis_reserve }
    else b

-- The fields of OrchestratorSettings that `from_settings` reads.
pub record Settings : Type 0 where
  pub request_budgets_enabled : Bool
  pub request_deadline : ℤ
  pub request_token_budget : ℤ
  pub request_cost_max : ℤ
  pub synthesis_reserve : ℤ
  pub synthesis_safety_margin : ℤ
  pub synthesis_min_timeout : ℤ
  pub synthesis_timeout : ℤ

-- `x if enabled and x > 0 else None`
ceiling_of : Bool → ℤ → Option ℕ
ceiling_of enabled x = if enabled && ltb 0 (clamp x) then some (clamp x) else none

unfoldable pub from_settings : Settings → ℕ → Budget
unfolding post_init ceiling_of
from_settings s now =
    let deadline = if s.request_budgets_enabled then s.request_deadline else unlimited_deadline in
    post_init (record {
      deadline_monotonic = now + clamp deadline;
      token_ceiling = ceiling_of s.request_budgets_enabled s.request_token_budget;
      cost_max = ceiling_of s.request_budgets_enabled s.request_cost_max;
      safety_margin = clamp s.synthesis_safety_margin;
      min_synthesis_timeout = clamp s.synthesis_min_timeout;
      max_synthesis_timeout = clamp s.synthesis_timeout;
      synthesis_reserve = clamp s.synthesis_reserve;
      exhausted = none;
      started_monotonic = now;
      plan_duration = 0;
      base_synthesis_reserve = clamp s.synthesis_reserve;
    })

unfoldable pub remaining : ℕ → Budget → ℕ
remaining now b = b.deadline_monotonic - now

unfoldable pub elapsed : ℕ → Budget → ℕ
elapsed now b = if b.started_monotonic == 0 then 0 else now - b.started_monotonic

unfoldable pub specialist_remaining : ℕ → Budget → ℕ
unfolding remaining
specialist_remaining now b = remaining now b - b.synthesis_reserve

unfoldable pub apply_prompt_reserve : ℕ → Budget → Budget
unfolding scaled_synthesis_reserve
apply_prompt_reserve prompt_tokens b = if b.base_synthesis_reserve == 0 then b else record b {
  synthesis_reserve =
      max b.base_synthesis_reserve
        (scaled_synthesis_reserve prompt_tokens b.base_synthesis_reserve);
}

timeout_cap : Option ℕ → Budget → ℕ
timeout_cap (some prompt_tokens) b =
    max b.max_synthesis_timeout (scaled_synthesis_reserve prompt_tokens b.max_synthesis_timeout)
timeout_cap none b =
    if ltb b.base_synthesis_reserve b.synthesis_reserve
    then max b.max_synthesis_timeout b.synthesis_reserve
    else b.max_synthesis_timeout

unfoldable pub synthesis_timeout : ℕ → Option ℕ → Budget → ℕ
unfolding timeout_cap remaining scaled_synthesis_reserve
synthesis_timeout now prompt_tokens b =
    let usable = remaining now b - b.safety_margin in
    if usable == 0 then 0 else min (timeout_cap prompt_tokens b) usable

exhaust : Ceiling → Budget → Option Ceiling × Budget
exhaust c b = (some c, record b { exhausted = some c })

-- `limit is not None and spent >= limit`
reached : Option ℕ → ℕ → Bool
reached none spent = false
reached (some limit) spent = leb limit spent

check_spend : ℕ → ℕ → Budget → Option Ceiling × Budget
unfolding exhaust reached
check_spend total cost_spent b =
    if reached b.token_ceiling total
    then exhaust tokens b
    else if reached b.cost_max cost_spent
    then exhaust cost b
    else (none, b)

check_ledger : Option Ledger → String → Budget → Option Ceiling × Budget
unfolding check_spend
check_ledger none cid b = (none, b)
check_ledger (some ledger) cid b =
    let spent = snapshot cid ledger in check_spend spent.total spent.cost b

check_now : Option Ceiling → Option Ledger → String → ℕ → Budget → Option Ceiling × Budget
unfolding check_ledger remaining
check_now (some c) ledger cid now b = (some c, b)
check_now none ledger cid now b =
    if remaining now b == 0 then exhaust deadline b else check_ledger ledger cid b

unfoldable pub check : Option Ledger → String → ℕ → Budget → Option Ceiling × Budget
unfolding check_now
check ledger cid now b = check_now b.exhausted ledger cid now b

-- The clock is read again, at `later`.
allow_checked : Option Ceiling × Budget → ℕ → Bool × Budget
unfolding specialist_remaining
allow_checked (some c, b) later = (false, b)
allow_checked (none, b) later = (ltb 0 (specialist_remaining later b), b)

unfoldable pub allow_new_call : Option Ledger → String → ℕ → ℕ → Budget → Bool × Budget
unfolding allow_checked check
allow_new_call ledger cid now later b = allow_checked (check ledger cid now b) later
