-- ===== src/Gateway/Stream/Same.antt =====
-- The two branches of stream give the same events when nothing is streamed.
use repo_agent.Prelude.{◌≡◌, refl, ap, ◌∙◌, inl, inr, true, false, none, some, [], Bool-cases}
use repo_agent.Prelude.Int.{ℤ}
use repo_agent.Prelude.Json.{
  Json, null, bool, number, array, str, object, Fields, end, field, get_field, has_field, truthy,
  dict,
}
use repo_agent.Prelude.Text.{codes}
use repo_agent.Prelude.Words.{Text}
use repo_agent.Gateway.Events.{or_else}
use repo_agent.Gateway.Payload.{
  Payload, mapping, ParsedPayload, payload_fields, parsed, some_fields, done_payload, dict_or_empty,
  tools_of, tokens_of, optional_str, optional_bool, as_dict, answer_in,
}
use repo_agent.Gateway.Stream.{
  returned, failed, finish, stream_live, stream_waiting, degraded_payload, queue,
}
use repo_agent.Gateway.Stream.Waiting.{waited, waited_fields, mode_in, unread, degraded_answer}
use repo_agent.Gateway.Stream.Routing.{
  emit_routing_and_agent, routing_events, iteration_event, single_event, agent_event_of, fields_of,
}

module _ (str_of : Json → Text) (str_str : (t : Text) → str_of (str t) ≡ t) (size : ℤ) (cid : Text)
    (latency : ℤ) where
  -- The metadata count only by their fields.
  finish-metadata :
      (p : ParsedPayload)
      → finish str_of size cid latency [] (record p { metadata = none })
        ≡ finish str_of size cid latency [] (record p { metadata = some end })
  unfolding finish emit_routing_and_agent fields_of routing_events iteration_event single_event
      agent_event_of done_payload
  finish-metadata p = refl

  mode_in-parsed :
      (meta : Fields)
      → has_field "routing_mode" meta ≡ truthy (get_field "routing_mode" meta)
      → str_of (or_else (get_field "routing_mode" meta) (str (codes "orchestrator")))
        ≡ mode_in str_of meta
  unfolding mode_in or_else
  mode_in-parsed meta h = elim (Bool-cases (truthy (get_field "routing_mode" meta))) [
    | inl k ↦ rw (h, k) refl
    | inr k ↦ rw (h, k) (str_str (codes "orchestrator"))
  ]

  finish-unread :
      (value : Json)
      → finish str_of size cid latency [] (parsed str_of value end)
        ≡ finish str_of size cid latency [] (unread (str_of value) none false)
  unfolding parsed some_fields unread tools_of tokens_of optional_str optional_bool as_dict
      get_field truthy or_else
  finish-unread value =
      ap
        (λ t.
          finish str_of size cid latency [] (record (parsed str_of value end) { routing_mode = t }))
        (str_str (codes "orchestrator"))

  finish-waited :
      (value v : Json)
      → has_field "routing_mode" (dict_or_empty v)
        ≡ truthy (get_field "routing_mode" (dict_or_empty v))
      → finish str_of size cid latency [] (parsed str_of value (dict_or_empty v))
        ≡ finish str_of size cid latency [] (waited_fields str_of value v)
  unfolding parsed waited_fields dict_or_empty some_fields unread tools_of tokens_of optional_str
      optional_bool as_dict get_field truthy has_field or_else mode_in
  finish-waited value (object end) h =
      ap
        (λ t.
          finish str_of size cid latency [] (record (parsed str_of value end) { routing_mode = t }))
        (str_str (codes "orchestrator"))
      ∙ finish-metadata (waited_fields str_of value (object end))
  finish-waited value (object (field k v fs)) h =
      ap
        (λ t.
          finish str_of size cid latency []
            (record (parsed str_of value (field k v fs)) { routing_mode = t }))
        (mode_in-parsed (field k v fs) h)
  finish-waited value null h = finish-unread value
  finish-waited value (bool b) h = finish-unread value
  finish-waited value (number n) h = finish-unread value
  finish-waited value (str t) h = finish-unread value
  finish-waited value (array vs) h = finish-unread value

  finish-failed :
      (exc : Text)
      → finish str_of size cid latency [] (payload_fields str_of (degraded_payload exc))
        ≡ finish str_of size cid latency [] (unread (degraded_answer exc) none true)
  unfolding payload_fields parsed unread degraded_payload dict dict_or_empty answer_in some_fields
      tools_of tokens_of optional_str optional_bool as_dict get_field has_field truthy or_else
      finish emit_routing_and_agent fields_of routing_events iteration_event single_event
      agent_event_of done_payload
  finish-failed exc =
      ap
        (λ t.
          finish str_of size cid latency []
            (record (unread t none true) { routing_mode = str_of (str (codes "orchestrator")) }))
        (str_str (degraded_answer exc))
      ∙ ap
          (λ t.
            finish str_of size cid latency []
              (record (unread (degraded_answer exc) none true) { routing_mode = t }))
          (str_str (codes "orchestrator"))

  -- Let str() give a text back as it is. For a handle_query that streams nothing and returns a dict,
  -- whose metadata have a true routing mode or none, the events are the same whether it accepts
  -- callbacks or not.
  pub stream_live-waiting :
      (no_get : Payload → Text) (fs : Fields)
      → has_field "routing_mode" (dict_or_empty (get_field "metadata" fs))
        ≡ truthy (get_field "routing_mode" (dict_or_empty (get_field "metadata" fs)))
      → stream_live str_of size cid latency [] (returned (mapping fs))
        ≡ stream_waiting str_of no_get size cid latency (returned (mapping fs))
  unfolding stream_live stream_waiting queue waited payload_fields
  stream_live-waiting no_get fs h =
      ap (λ es. record { events = es; raised = false })
        (finish-waited (answer_in fs) (get_field "metadata" fs) h)

  -- The same for one that fails.
  stream_live-waiting_failed :
      (no_get : Payload → Text) (exc : Text)
      → stream_live str_of size cid latency [] (failed exc)
        ≡ stream_waiting str_of no_get size cid latency (failed exc)
  unfolding stream_live stream_waiting queue
  stream_live-waiting_failed no_get exc =
      ap (λ es. record { events = es; raised = false }) (finish-failed exc)
