-- ===== src/Observability/Ledger.antt =====
-- core/src/core/observability/ledger.py. Costs count billionths of a USD, as in Llm/Pricing; the
-- settings read from the environment are a parameter. The metrics counters are left out.
pub mod Totals
pub mod Entries
mod Examples
use repo_agent.Prelude.{
  ℕ, ◌+◌, ◌-◌, ◌*◌, ◌/◌, ◌%◌, String, Bool, true, false, ◌&&◌, ◌||◌, Option, none, some, [], ◌∷◌,
  str_eq, ltb, ◌==◌, if◌then◌else◌,
}
use repo_agent.Prelude.Dict.{Dict, lookup, insert, erase}
use repo_agent.Llm.Pricing.{ModelRates, cost_usd}

-- core/src/core/llm/provider.py, the class TokenUsage.
pub record TokenUsage : Type 0 where
  pub prompt_tokens : ℕ
  pub completion_tokens : ℕ
  pub total_tokens : ℕ
  pub model : Option String
  pub cached_prompt_tokens : ℕ

unfoldable pub uncached_prompt_tokens : TokenUsage → ℕ
uncached_prompt_tokens u = u.prompt_tokens - u.cached_prompt_tokens

-- core/src/core/settings.py, what `LLMSettings.from_env()` gives.
pub record LlmSettings : Type 0 where
  pub resolve_model : String → String
  pub rates_for : String → ModelRates

pub record Bucket : Type 0 where
  pub prompt : ℕ
  pub completion : ℕ
  pub total : ℕ
  pub cached_prompt : ℕ
  pub uncached_prompt : ℕ
  pub cost : ℕ
  pub llm_calls : ℕ
  pub model : Option String

-- _bucket()
abbrev pub empty_bucket : Bucket
empty_bucket = record {
  prompt = 0;
  completion = 0;
  total = 0;
  cached_prompt = 0;
  uncached_prompt = 0;
  cost = 0;
  llm_calls = 0;
  model = none;
}

pub record Entry : Type 0 where
  pub prompt : ℕ
  pub completion : ℕ
  pub cached_prompt : ℕ
  pub uncached_prompt : ℕ
  pub total : ℕ
  pub llm_calls : ℕ
  pub cost : ℕ
  pub by_purpose : Dict Bucket
  pub by_model : Dict Bucket

abbrev pub empty_entry : Entry
empty_entry = record {
  prompt = 0;
  completion = 0;
  cached_prompt = 0;
  uncached_prompt = 0;
  total = 0;
  llm_calls = 0;
  cost = 0;
  by_purpose = [];
  by_model = [];
}

-- round(x, 8) in USD: the nearest multiple of ten billionths, the even one of two that are as near.
unfoldable pub round_cost : ℕ → ℕ
round_cost x =
    if ltb (x % 10) 5 || (x % 10 == 5 && (x / 10) % 2 == 0)
    then 10 * (x / 10)
    else 10 * (x / 10) + 10

unfoldable pub add_to_bucket : TokenUsage → ℕ → String → Bucket → Bucket
unfolding round_cost uncached_prompt_tokens
add_to_bucket usage call_cost model b = record {
  prompt = b.prompt + usage.prompt_tokens;
  completion = b.completion + usage.completion_tokens;
  total = b.total + usage.total_tokens;
  cached_prompt = b.cached_prompt + usage.cached_prompt_tokens;
  uncached_prompt = b.uncached_prompt + uncached_prompt_tokens usage;
  cost = round_cost (b.cost + call_cost);
  llm_calls = b.llm_calls + 1;
  model = some model;
}

-- `f` on the entry of `k` in a defaultdict of buckets.
unfoldable pub modify : String → (Bucket → Bucket) → Dict Bucket → Dict Bucket
modify k f [] = (k, f empty_bucket) ∷ []
modify k f ((j, b) ∷ d) = if str_eq j k then (j, f b) ∷ d else (j, b) ∷ modify k f d

-- usage.model or settings.resolve_model(purpose)
unfoldable pub model_of : LlmSettings → String → Option String → String
model_of s purpose none = s.resolve_model purpose
model_of s purpose (some m) = if str_eq m "" then s.resolve_model purpose else m

unfoldable pub call_cost : LlmSettings → String → TokenUsage → ℕ
unfolding model_of cost_usd
call_cost s purpose u =
    cost_usd u.prompt_tokens u.completion_tokens u.cached_prompt_tokens
      (s.rates_for (model_of s purpose u.model))

-- What `record` does to the entry of the request.
unfoldable pub add_call : LlmSettings → String → TokenUsage → Entry → Entry
unfolding call_cost add_to_bucket modify
add_call s purpose u e =
    let model = model_of s purpose u.model in
    let cost = call_cost s purpose u in
    record {
      prompt = e.prompt + u.prompt_tokens;
      completion = e.completion + u.completion_tokens;
      cached_prompt = e.cached_prompt + u.cached_prompt_tokens;
      uncached_prompt = e.uncached_prompt + uncached_prompt_tokens u;
      total = e.total + u.total_tokens;
      llm_calls = e.llm_calls + 1;
      cost = e.cost + cost;
      by_purpose = modify purpose (add_to_bucket u cost model) e.by_purpose;
      by_model = modify model (add_to_bucket u cost model) e.by_model;
    }

abbrev pub Ledger : Type 0
Ledger = Dict Entry

abbrev pub entry_of : Option Entry → Entry
entry_of none = empty_entry
entry_of (some e) = e

-- `open` is the source's word.
unfoldable pub open_request : String → Ledger → Ledger
open_request cid l = insert cid empty_entry l

unfoldable pub record_usage : LlmSettings → String → String → TokenUsage → Ledger → Ledger
record_usage s cid purpose u l = insert cid (add_call s purpose u (entry_of (lookup cid l))) l

-- _entry_totals: the entry with its cost rounded.
unfoldable pub entry_totals : Entry → Entry
unfolding round_cost
entry_totals e = record e { cost = round_cost e.cost }

snapshot_entry : Option Entry → Entry
unfolding entry_totals
snapshot_entry none = empty_entry
snapshot_entry (some e) = entry_totals e

unfoldable pub snapshot : String → Ledger → Entry
unfolding snapshot_entry
snapshot cid l = snapshot_entry (lookup cid l)

-- `close` is the source's word.
unfoldable pub close_request : String → Ledger → Entry × Ledger
unfolding entry_totals
close_request cid l = (entry_totals (entry_of (lookup cid l)), erase cid l)

-- The `usage` of a payload: missing or null, a TokenUsage, or another value with what
-- `TokenUsage.model_validate` makes of it.
pub data RawUsage : Type 0 where
  missing : RawUsage
  typed : TokenUsage → RawUsage
  untyped : Option TokenUsage → RawUsage

usable : TokenUsage → Option TokenUsage
usable u = if u.total_tokens == 0 && u.prompt_tokens == 0 then none else some u

unfoldable pub usage_from_payload : RawUsage → Option TokenUsage
unfolding usable
usage_from_payload missing = none
usage_from_payload (typed u) = usable u
usage_from_payload (untyped none) = none
usage_from_payload (untyped (some u)) = usable u

record_found : LlmSettings → String → String → Option TokenUsage → Ledger → Bool × Ledger
record_found s cid purpose none l = (false, l)
record_found s cid purpose (some u) l = (true, record_usage s cid purpose u l)

unfoldable pub record_payload : LlmSettings → String → String → RawUsage → Ledger → Bool × Ledger
unfolding record_found
record_payload s cid purpose raw l = record_found s cid purpose (usage_from_payload raw) l
