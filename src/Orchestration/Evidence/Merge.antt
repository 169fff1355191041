-- ===== src/Orchestration/Evidence/Merge.antt =====
-- core/src/core/orchestration/evidence.py, `merge_agent_outputs`.
pub mod Values
pub mod Keeping
use repo_agent.Prelude.{String, Option, none, some, List, [], ◌∷◌, str_eq, if◌then◌else◌}
use repo_agent.Prelude.Words.{Text, add_new}
use repo_agent.Prelude.Json.{
  Json, array, object, Fields, end, field, get_field, put_field, append_items,
}
use repo_agent.Orchestration.Models.{AgentName, same_agent, AgentOutput}
use repo_agent.Orchestration.Loop.{Outputs}
use repo_agent.Orchestration.Evidence.Findings.{output_of}

-- [*existing, *value] for two lists, else value.
unfoldable pub joined_value : Json → Json → Json
unfolding append_items
joined_value (array xs) (array ys) = array (append_items xs ys)
joined_value existing value = value

unfoldable pub merge_fields : Fields → Fields → Fields
unfolding put_field joined_value get_field
merge_fields combined end = combined
merge_fields combined (field k v fs) =
    merge_fields (put_field k (joined_value (get_field k combined) v) combined) fs

-- output.output if isinstance(output.output, dict) else {}
unfoldable pub fields_of : Option Json → Fields
fields_of none = end
fields_of (some (object fs)) = fs
fields_of (some v) = end

-- combined or incoming.output
unfoldable pub or_output : Fields → Option Json → Option Json
or_output end incoming = incoming
or_output (field k v fs) incoming = some (object (field k v fs))

or_note : Option String → Option String → Option String
or_note none previous = previous
or_note (some s) previous = if str_eq s "" then previous else some s

both_ok : AgentOutput Json → AgentOutput Json → List Text → AgentOutput Json
unfolding merge_fields fields_of or_output or_note
both_ok previous incoming tools = record incoming {
  output =
      or_output (merge_fields (fields_of previous.output) (fields_of incoming.output))
        incoming.output;
  tools_invoked = tools;
  degraded_note = or_note incoming.degraded_note previous.degraded_note;
}

unfoldable pub merge_one : AgentOutput Json → AgentOutput Json → AgentOutput Json
unfolding both_ok add_new
merge_one previous incoming =
    let tools = add_new previous.tools_invoked incoming.tools_invoked in
    if incoming.ok
    then (if previous.ok
        then both_ok previous incoming tools
        else record incoming { tools_invoked = tools })
    else if previous.ok
    then record previous { tools_invoked = tools }
    else record incoming { tools_invoked = tools }

merged_value : Option (AgentOutput Json) → AgentOutput Json → AgentOutput Json
unfolding merge_one
merged_value none incoming = incoming
merged_value (some previous) incoming = merge_one previous incoming

-- merged[agent] = value
put_output : AgentName → AgentOutput Json → Outputs Json → Outputs Json
unfolding same_agent
put_output a o [] = (a, o) ∷ []
put_output a o ((b, p) ∷ outputs) =
    if same_agent b a then (b, o) ∷ outputs else (b, p) ∷ put_output a o outputs

unfoldable pub merge_agent_outputs : Outputs Json → Outputs Json → Outputs Json
unfolding put_output merged_value output_of
merge_agent_outputs merged [] = merged
merge_agent_outputs merged ((a, incoming) ∷ extra) =
    merge_agent_outputs (put_output a (merged_value (output_of a merged) incoming) merged) extra
