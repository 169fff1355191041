-- ===== src/Llm/Pricing/Examples.antt =====
-- A call at the rates of a catalog entry.
use repo_agent.Prelude.{◌≡◌, refl, none, [], ◌∷◌}
use repo_agent.Prelude.Dict.{lookup}
use repo_agent.Llm.Pricing.{resolve_rates, default_rates}

overlay_wins :
    resolve_rates "openai/gpt-4.1-mini" (("openai/gpt-4.1-mini", default_rates) ∷ []) none
    ≡ default_rates
unfolding resolve_rates lookup
overlay_wins = refl
