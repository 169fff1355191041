-- ===== src/Gateway/Stream/Routing.antt =====
-- core/src/core/gateway.py, _emit_routing_and_agent: the events that report the plan when no routing
-- event was streamed.
use repo_agent.Prelude.{not, Option, none, some, List, [], ◌∷◌, ◌++◌, map}
use repo_agent.Prelude.Json.{
  Json, bool, str, array, object, Items, nil, cons, Fields, end, get_field, text_list, dict,
}
use repo_agent.Prelude.Text.{codes}
use repo_agent.Prelude.Words.{Text}
use repo_agent.Gateway.Events.{
  EventKind, routing, agent_result, ChatEvent, or_else, agents_from_tools,
}
use repo_agent.Gateway.Payload.{ParsedPayload, dict_or_empty}

unfoldable pub event : EventKind → Text → Fields → ChatEvent
event kind cid fs = record { type = kind; correlation_id = cid; data_of = fs }

-- specialist_agents or ["orchestrator"]
unfoldable pub agents_or_self : List Text → Json
unfolding text_list
agents_or_self [] = text_list (codes "orchestrator" ∷ [])
agents_or_self (a ∷ agents) = text_list (a ∷ agents)

-- The agents of an iteration, if they are a list with an entry.
unfoldable pub agents_of : Json → List Text → Json
unfolding agents_or_self
agents_of (array (cons v vs)) specialists = array (cons v vs)
agents_of v specialists = agents_or_self specialists

-- [item for item in plan_iterations if isinstance(item, dict)]
unfoldable pub dicts_in : Items → List Fields
dicts_in nil = []
dicts_in (cons (object fs) vs) = fs ∷ dicts_in vs
dicts_in (cons v vs) = dicts_in vs

-- The iterations, if they are a list.
unfoldable pub iterations_of : Json → List Fields
unfolding dicts_in
iterations_of (array vs) = dicts_in vs
iterations_of v = []

-- metadata, or an empty dict in place of None: both have no field.
unfoldable pub fields_of : Option Fields → Fields
fields_of none = end
fields_of (some fs) = fs

module _ (str_of : Json → Text) (cid : Text) (p : ParsedPayload) (breaker_state : Json) where
  unfoldable pub iteration_event : Fields → ChatEvent
  unfolding event dict or_else text_list agents_of agents_from_tools get_field
  iteration_event item = event routing cid (
      dict (
        ("mode", str (codes "orchestrator"))
        ∷ (
          "routing_mode",
          str (str_of (or_else (get_field "routing_mode" item) (str p.routing_mode))),
        )
        ∷ ("iteration", get_field "iteration" item)
        ∷ ("agents", agents_of (get_field "agents" item) (agents_from_tools p.tools_invoked))
        ∷ ("tools_invoked", or_else (get_field "tools_invoked" item) (text_list p.tools_invoked))
        ∷ ("search_terms", or_else (get_field "search_terms" item) (array nil))
        ∷ ("sufficient", get_field "sufficient" item)
        ∷ ("reason", get_field "reason" item)
        ∷ ("refinement", get_field "refinement" item)
        ∷ ("cached", bool p.cached)
        ∷ ("degraded", bool p.degraded)
        ∷ ("circuit_breakers", breaker_state)
        ∷ []))

  unfoldable pub single_event : ChatEvent
  unfolding event dict text_list agents_or_self agents_from_tools
  single_event = event routing cid (
      dict (
        ("mode", str (codes "orchestrator"))
        ∷ ("routing_mode", str p.routing_mode)
        ∷ ("agents", agents_or_self (agents_from_tools p.tools_invoked))
        ∷ ("tools_invoked", text_list p.tools_invoked)
        ∷ ("cached", bool p.cached)
        ∷ ("degraded", bool p.degraded)
        ∷ ("circuit_breakers", breaker_state)
        ∷ []))

  unfoldable pub routing_events : List Fields → List ChatEvent
  unfolding iteration_event single_event
  routing_events [] = single_event ∷ []
  routing_events (item ∷ items) = map iteration_event (item ∷ items)

  unfoldable pub agent_event_of : ChatEvent
  unfolding event dict
  agent_event_of = event agent_result cid (
      dict (
        ("agent", str (codes "orchestrator"))
        ∷ ("ok", bool (not p.degraded))
        ∷ ("cached", bool p.cached)
        ∷ ("degraded", bool p.degraded)
        ∷ []))

-- _emit_routing_and_agent
unfoldable pub emit_routing_and_agent : (Json → Text) → Text → ParsedPayload → List ChatEvent
unfolding routing_events agent_event_of iterations_of fields_of dict_or_empty get_field
emit_routing_and_agent str_of cid p =
    let breakers = object (dict_or_empty (get_field "circuit_breakers" (fields_of p.metadata))) in
    routing_events str_of cid p breakers
      (iterations_of (get_field "plan_iterations" (fields_of p.metadata)))
    ++ agent_event_of str_of cid p breakers ∷ []
