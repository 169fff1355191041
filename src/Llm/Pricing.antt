-- ===== src/Llm/Pricing.antt =====
-- core/src/core/llm/pricing.py. A rate counts thousandths of a USD per million tokens, so that a cost
-- counts billionths of a USD and is exact; every rate in the source is a multiple of that unit.
mod Laws
mod Examples
use repo_agent.Prelude.{ℕ, ◌+◌, ◌-◌, ◌*◌, String, Option, none, some, [], ◌∷◌}
use repo_agent.Prelude.Int.{ℤ, pos, negsuc}
use repo_agent.Prelude.Dict.{Dict, lookup}

pub record ModelRates : Type 0 where
  pub prompt : ℕ
  pub completion : ℕ
  pub cached_prompt : ℕ

abbrev pub default_rates : ModelRates
default_rates = record { prompt = 3000; completion = 15000; cached_prompt = 300 }

-- The validator `_non_negative` of each field; `none` is its ValueError.
non_negative : ℤ → Option ℕ
non_negative (pos n) = some n
non_negative (negsuc n) = none

all_rates : Option ℕ → Option ℕ → Option ℕ → Option ModelRates
all_rates (some p) (some c) (some q) =
    some (record { prompt = p; completion = c; cached_prompt = q })
all_rates _ _ _ = none

unfoldable pub validate_rates : ℤ → ℤ → ℤ → Option ModelRates
unfolding all_rates non_negative
validate_rates p c q = all_rates (non_negative p) (non_negative c) (non_negative q)

-- CATALOG
abbrev pub catalog : Dict ModelRates
catalog =
    (
      "anthropic/claude-sonnet-4.5",
      record { prompt = 3000; completion = 15000; cached_prompt = 300 },
    )
    ∷ ("anthropic/claude-haiku-4.5", record { prompt = 500; completion = 2500; cached_prompt = 50 })
    ∷ ("openai/gpt-4.1-mini", record { prompt = 400; completion = 1600; cached_prompt = 100 })
    ∷ ("typesafe/jev-latest", record { prompt = 42; completion = 0; cached_prompt = 42 })
    ∷ ("google/gemini-2.5-flash", record { prompt = 300; completion = 2500; cached_prompt = 30 })
    ∷ []

or_else {ℓ} : {A : Type ℓ} → Option A → A → A
or_else none d = d
or_else (some a) d = a

-- An overlay that is not given is one with no entry.
unfoldable pub resolve_rates : String → Dict ModelRates → Option ModelRates → ModelRates
unfolding or_else
resolve_rates model overlay fallback =
    or_else (lookup model overlay) (or_else (lookup model catalog) (or_else fallback default_rates))

-- `rates or ModelRates()` is the caller's choice of `rates`.
unfoldable pub cost_usd : ℕ → ℕ → ℕ → ModelRates → ℕ
cost_usd prompt_tokens completion_tokens cached_prompt_tokens rates =
    (prompt_tokens - cached_prompt_tokens) * rates.prompt
    + cached_prompt_tokens * rates.cached_prompt
    + completion_tokens * rates.completion
