-- ===== src/Gateway/Run.antt =====
-- core/src/core/gateway.py, the method run of ChatGatewayService: it collects the events of a stream.
use repo_agent.Prelude.{Option, none, some, List, [], ◌∷◌, ◌++◌, map, if◌then◌else◌}
use repo_agent.Prelude.Json.{
  Json, str, array, object, Items, nil, cons, Fields, end, field, truthy, get_field,
}
use repo_agent.Prelude.Text.{codes}
use repo_agent.Prelude.Words.{Text}
use repo_agent.Gateway.Events.{
  EventKind, routing, agent_result, answer, done, ChatEvent, expand_tools_invoked,
}
use repo_agent.Gateway.Events.Chunks.{joined}
use repo_agent.Gateway.Stream.{Streamed}

pub record Collected : Type 0 where
  pub routing_data : Fields
  pub agent_results : List Fields
  pub answer_parts : List Text
  pub done_data : Fields

abbrev pub nothing_yet : Collected
nothing_yet = record { routing_data = end; agent_results = []; answer_parts = []; done_data = end }

-- if isinstance(chunk, str): answer_parts.append(chunk)
unfoldable pub add_part : Json → List Text → List Text
add_part (str t) parts = parts ++ t ∷ []
add_part v parts = parts

unfoldable pub collect_as : EventKind → Fields → Collected → Collected
unfolding add_part get_field
collect_as routing fs c = record c { routing_data = fs }
collect_as agent_result fs c = record c { agent_results = c.agent_results ++ fs ∷ [] }
collect_as answer fs c = record c { answer_parts = add_part (get_field "chunk" fs) c.answer_parts }
collect_as done fs c = record c { done_data = fs }

unfoldable pub collect : List ChatEvent → Collected → Collected
unfolding collect_as
collect [] c = c
collect (e ∷ es) c = collect es (collect_as e.type e.data_of c)

-- The candidates that a tool gives: a text gives itself, an empty list or dict none, and any other
-- value raises a TypeError.
item_texts : Json → Option (List Text)
item_texts (str t) = some (t ∷ [])
item_texts (array nil) = some []
item_texts (object end) = some []
item_texts v = none

and_then : Option (List Text) → Option (List Text) → Option (List Text)
and_then none later = none
and_then (some ts) none = none
and_then (some ts) (some us) = some (ts ++ us)

items_texts : Items → Option (List Text)
unfolding item_texts and_then
items_texts nil = some []
items_texts (cons v vs) = and_then (item_texts v) (items_texts vs)

keys_of : Fields → List Text
keys_of end = []
keys_of (field k v fs) = codes k ∷ keys_of fs

-- list(tools_invoked or []); a text gives its characters, a dict its keys.
unfoldable pub tool_list : Json → Option (List Text)
unfolding truthy items_texts keys_of
tool_list (array vs) = items_texts vs
tool_list (object fs) = some (keys_of fs)
tool_list (str t) = some (map (λ c. c ∷ []) t)
tool_list v = if truthy v then none else some []

pub record ChatRunResult : Type 0 where
  pub session_id : Text
  pub correlation_id : Text
  pub collected : Collected
  pub answer_text : Text
  pub tools_invoked : List Text

run_result : Text → Text → Collected → Option (List Text) → Option ChatRunResult
unfolding joined expand_tools_invoked
run_result session_id cid c none = none
run_result session_id cid c (some tools) = some (record {
  session_id = session_id;
  correlation_id = cid;
  collected = c;
  answer_text = joined c.answer_parts;
  tools_invoked = expand_tools_invoked tools;
})

-- None for an exception.
unfoldable pub run : Text → Text → Streamed → Option ChatRunResult
unfolding collect run_result tool_list get_field
run session_id cid streamed =
    let c = collect streamed.events nothing_yet in
    if streamed.raised
    then none
    else run_result session_id cid c (tool_list (get_field "tools_invoked" c.routing_data))
