-- ===== src/Observability/Ledger/Examples.antt =====
-- Two calls of one request, one with tokens from the cache.
use repo_agent.Prelude.{String, ◌≡◌, refl, none, some, List, [], ◌∷◌}
use repo_agent.Prelude.Dict.{lookup, insert}
use repo_agent.Llm.Pricing.{default_rates}
use repo_agent.Observability.Ledger.{
  TokenUsage, LlmSettings, open_request, record_usage, snapshot, close_request, round_cost,
  add_call, empty_entry,
}
use repo_agent.Observability.Ledger.Totals.{Balanced}
use repo_agent.Observability.Ledger.Entries.{record_calls, snapshot-totals, Sums}

abbrev settings : LlmSettings
settings = record { resolve_model = λ purpose. "base"; rates_for = λ model. default_rates }

abbrev routing_call : TokenUsage
routing_call = record {
  prompt_tokens = 100;
  completion_tokens = 7;
  total_tokens = 107;
  model = none;
  cached_prompt_tokens = 40;
}

abbrev synthesis_call : TokenUsage
synthesis_call = record {
  prompt_tokens = 900;
  completion_tokens = 50;
  total_tokens = 950;
  model = some "big";
  cached_prompt_tokens = 0;
}

abbrev calls : List (String × TokenUsage)
calls = ("routing", routing_call) ∷ ("synthesis", synthesis_call) ∷ []

two_calls_cost :
    (snapshot "r1" (record_calls settings "r1" calls (open_request "r1" []))).cost ≡ 3747000
unfolding snapshot record_calls open_request record_usage lookup insert add_call
two_calls_cost = refl

half_to_even : (round_cost 25 ≡ 20) × (round_cost 35 ≡ 40) × (round_cost 26 ≡ 30)
unfolding round_cost
half_to_even = (refl, refl, refl)

snapshot-totals_example :
    let m = record_calls settings "r1" calls (open_request "r1" []) in
    Sums calls empty_entry (snapshot "r1" m)
    × Balanced 5 (snapshot "r1" m)
    × ((close_request "r1" m).0 ≡ snapshot "r1" m)
    × (snapshot "r1" (close_request "r1" m).1 ≡ empty_entry)
snapshot-totals_example = snapshot-totals settings "r1" calls []
