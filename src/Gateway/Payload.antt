-- ===== src/Gateway/Payload.antt =====
-- core/src/core/gateway.py: the fields of what the orchestrator returns, and the data of the last
-- event. str() of a JSON value is an argument.
use repo_agent.Prelude.{String, Bool, true, Option, none, some, List, [], ◌∷◌, if◌then◌else◌}
use repo_agent.Prelude.Int.{ℤ, pos}
use repo_agent.Prelude.Json.{
  Json, null, bool, number, str, array, object, Items, nil, cons, Fields, end, field, truthy,
  get_field, has_field, put_field, dict,
}
use repo_agent.Prelude.Text.{codes}
use repo_agent.Prelude.Words.{Text}
use repo_agent.Gateway.Events.{or_else}

-- What handle_query returns: a dict, an object with an answer and perhaps metadata, or another value
-- with its text.
pub data Payload : Type 0 where
  mapping : Fields → Payload
  answered : Json → Json → Payload
  other : Text → Payload

pub record ParsedPayload : Type 0 where
  pub answer : Text
  pub metadata : Option Fields
  pub cached : Bool
  pub degraded : Bool
  pub routing_mode : Text
  pub tools_invoked : List Text
  pub tokens : Json
  pub evidence_only : Bool
  pub partial : Bool
  pub degraded_reason : Option Text
  pub prompt_truncated : Option Fields
  pub memory_available : Option Bool
  pub graph_statistics_available : Option Bool

unfoldable pub optional_bool : Json → Option Bool
optional_bool (bool b) = some b
optional_bool v = none

-- x if isinstance(x, dict) else None
unfoldable pub as_dict : Json → Option Fields
as_dict (object fs) = some fs
as_dict v = none

unfoldable pub empty_token_totals : Json
unfolding dict
empty_token_totals = object (
    dict (
      ("total", number (pos 0))
      ∷ ("prompt", number (pos 0))
      ∷ ("completion", number (pos 0))
      ∷ ("cached_prompt", number (pos 0))
      ∷ ("uncached_prompt", number (pos 0))
      ∷ ("llm_calls", number (pos 0))
      ∷ ("cost_usd", number (pos 0))
      ∷ ("by_purpose", object end)
      ∷ ("by_model", object end)
      ∷ []))

-- tokens if isinstance(tokens, dict) else empty_token_totals()
unfoldable pub tokens_of : Json → Json
unfolding empty_token_totals
tokens_of (object fs) = object fs
tokens_of v = empty_token_totals

-- meta or None
unfoldable pub some_fields : Fields → Option Fields
some_fields end = none
some_fields (field k v fs) = some (field k v fs)

-- metadata if isinstance(metadata, dict) else {}
unfoldable pub dict_or_empty : Json → Fields
dict_or_empty (object fs) = fs
dict_or_empty v = end

-- The fields of a dict: its answer, "" when it is missing, and its metadata.
unfoldable pub answer_in : Fields → Json
unfolding get_field has_field
answer_in fs = if has_field "answer" fs then get_field "answer" fs else str []

module _ (str_of : Json → Text) where
  -- [str(item) for item in tools] if isinstance(tools, list) else []
  unfoldable pub texts_of : Items → List Text
  texts_of nil = []
  texts_of (cons v vs) = str_of v ∷ texts_of vs

  unfoldable pub tools_of : Json → List Text
  unfolding texts_of
  tools_of (array vs) = texts_of vs
  tools_of v = []

  -- str(reason) if reason is not None else None
  unfoldable pub optional_str : Json → Option Text
  optional_str null = none
  optional_str v = some (str_of v)

  unfoldable pub parsed : Json → Fields → ParsedPayload
  unfolding tools_of optional_str tokens_of truthy get_field or_else optional_bool as_dict
      some_fields
  parsed value meta = record {
    answer = str_of value;
    metadata = some_fields meta;
    cached = truthy (get_field "cached" meta);
    degraded = truthy (get_field "degraded" meta);
    routing_mode = str_of (or_else (get_field "routing_mode" meta) (str (codes "orchestrator")));
    tools_invoked = tools_of (get_field "tools_invoked" meta);
    tokens = tokens_of (get_field "tokens" meta);
    evidence_only = truthy (get_field "evidence_only" meta);
    partial = truthy (get_field "partial" meta);
    degraded_reason = optional_str (get_field "degraded_reason" meta);
    prompt_truncated = as_dict (get_field "prompt_truncated" meta);
    memory_available = optional_bool (get_field "memory_available" meta);
    graph_statistics_available = optional_bool (get_field "graph_statistics_available" meta);
  }

  unfoldable pub payload_fields : Payload → ParsedPayload
  unfolding parsed answer_in get_field dict_or_empty
  payload_fields (mapping fs) = parsed (answer_in fs) (dict_or_empty (get_field "metadata" fs))
  payload_fields (answered value metadata) = parsed value (dict_or_empty metadata)
  payload_fields (other text) = parsed (str text) end

-- payload[k] = True, if the flag is set
put_flag : String → Bool → Fields → Fields
unfolding put_field
put_flag k flag fs = if flag then put_field k (bool true) fs else fs

-- payload[k] = v, unless v is None
put_some : String → Option Json → Fields → Fields
unfolding put_field
put_some k none fs = fs
put_some k (some v) fs = put_field k v fs

unfoldable pub option_json {ℓ} : {A : Type ℓ} → (A → Json) → Option A → Option Json
option_json f none = none
option_json f (some a) = some (f a)

-- `latency_ms` is the time since the start.
unfoldable pub done_payload : Text → ℤ → ParsedPayload → Fields
unfolding dict put_flag put_some option_json
done_payload correlation_id latency_ms p =
    put_some "graph_statistics_available" (option_json bool p.graph_statistics_available) (
      put_some "memory_available" (option_json bool p.memory_available) (
        put_some "prompt_truncated" (option_json object p.prompt_truncated) (
          put_some "degraded_reason" (option_json str p.degraded_reason) (
            put_flag "partial" p.partial (
              put_flag "evidence_only" p.evidence_only (
                dict (
                  ("correlation_id", str correlation_id)
                  ∷ ("cached", bool p.cached)
                  ∷ ("degraded", bool p.degraded)
                  ∷ ("routing_mode", str p.routing_mode)
                  ∷ ("latency_ms", number latency_ms)
                  ∷ ("tokens", p.tokens)
                  ∷ [])))))))
