-- ===== src/Gateway/Stream/Waiting.antt =====
-- core/src/core/gateway.py, stream of ChatGatewayService: what is read from a payload that was waited
-- for.
use repo_agent.Prelude.{Bool, true, false, Option, none, some, [], ◌++◌, if◌then◌else◌}
use repo_agent.Prelude.Json.{Json, object, Fields, truthy, get_field, has_field}
use repo_agent.Prelude.Text.{codes}
use repo_agent.Prelude.Words.{Text}
use repo_agent.Gateway.Payload.{
  Payload, mapping, ParsedPayload, optional_bool, as_dict, empty_token_totals, tools_of,
  optional_str, tokens_of, answer_in,
}

-- "Degraded response: failed to run orchestrator ({exc})."
unfoldable pub degraded_answer : Text → Text
degraded_answer exc = codes "Degraded response: failed to run orchestrator (" ++ (exc ++ codes ").")

-- What stands when nothing was read from a payload.
unfoldable pub unread : Text → Option Fields → Bool → ParsedPayload
unfolding empty_token_totals
unread text metadata degraded = record {
  answer = text;
  metadata = metadata;
  cached = false;
  degraded = degraded;
  routing_mode = codes "orchestrator";
  tools_invoked = [];
  tokens = empty_token_totals;
  evidence_only = false;
  partial = false;
  degraded_reason = none;
  prompt_truncated = none;
  memory_available = none;
  graph_statistics_available = none;
}

module _ (str_of : Json → Text) where
  -- str(metadata.get("routing_mode", "orchestrator"))
  unfoldable pub mode_in : Fields → Text
  unfolding has_field get_field
  mode_in meta =
      if has_field "routing_mode" meta
      then str_of (get_field "routing_mode" meta)
      else codes "orchestrator"

  unfoldable pub waited_fields : Json → Json → ParsedPayload
  unfolding unread mode_in tools_of tokens_of optional_str optional_bool as_dict truthy get_field
  waited_fields value (object meta) = record {
    answer = str_of value;
    metadata = some meta;
    cached = truthy (get_field "cached" meta);
    degraded = truthy (get_field "degraded" meta);
    routing_mode = mode_in meta;
    tools_invoked = tools_of str_of (get_field "tools_invoked" meta);
    tokens = tokens_of (get_field "tokens" meta);
    evidence_only = truthy (get_field "evidence_only" meta);
    partial = truthy (get_field "partial" meta);
    degraded_reason = optional_str str_of (get_field "degraded_reason" meta);
    prompt_truncated = as_dict (get_field "prompt_truncated" meta);
    memory_available = optional_bool (get_field "memory_available" meta);
    graph_statistics_available = optional_bool (get_field "graph_statistics_available" meta);
  }
  waited_fields value v = unread (str_of value) none false

  -- `no_get` is the text of the AttributeError for a payload that is no dict.
  unfoldable pub waited : (Payload → Text) → Payload → ParsedPayload
  unfolding waited_fields unread degraded_answer answer_in get_field
  waited no_get (mapping fs) = waited_fields (answer_in fs) (get_field "metadata" fs)
  waited no_get payload = unread (degraded_answer (no_get payload)) none true
