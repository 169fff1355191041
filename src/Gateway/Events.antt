-- ===== src/Gateway/Events.antt =====
-- core/src/core/gateway.py: the events of a chat and the helpers that shape them. The chunks of a
-- text, and the names of agents and tools.
pub mod Chunks
use repo_agent.Prelude.{
  ℕ, zero, suc, Option, none, some, List, [], ◌∷◌, ◌++◌, ◌==◌, if◌then◌else◌, length, take, drop,
}
use repo_agent.Prelude.Int.{ℤ, clamp}
use repo_agent.Prelude.Json.{Json, Fields, truthy}
use repo_agent.Prelude.Words.{Text, add_new}

-- The type of an event.
pub data EventKind : Type 0 where
  routing : EventKind
  agent_result : EventKind
  answer : EventKind
  done : EventKind

pub record ChatEvent : Type 0 where
  pub type : EventKind
  pub correlation_id : Text
  pub data_of : Fields

-- v or w
unfoldable pub or_else : Json → Json → Json
unfolding truthy
or_else v w = if truthy v then v else w

-- text[i : i + n] for i in range(0, len(text), n); `fuel` is at least the number of chunks.
unfoldable pub slices : ℕ → ℕ → Text → List Text
slices zero n s = []
slices (suc fuel) n [] = []
slices (suc fuel) n (c ∷ s) = take n (c ∷ s) ∷ slices fuel n (drop n (c ∷ s))

unfoldable pub or_empty_chunk : List Text → List Text
or_empty_chunk [] = [] ∷ []
or_empty_chunk (t ∷ ts) = t ∷ ts

unfoldable pub chunk_text : ℤ → Text → List Text
unfolding slices or_empty_chunk
chunk_text size text =
    if clamp size == 0 then text ∷ [] else or_empty_chunk (slices (length text) (clamp size) text)

-- text.split(".", 1), if "." in text
unfoldable pub split_dot : Text → Option (Text × Text)
split_dot [] = none
split_dot (c ∷ s) =
    let rest = split_dot s in
    if c == b'.' then some ([], s) else elim rest [ none ↦ none | some (a, b) ↦ some (c ∷ a, b) ]

-- A name that is not empty, as a list.
unfoldable pub named : Text → List Text
named [] = []
named (c ∷ s) = (c ∷ s) ∷ []

unfoldable pub agent_names : List Text → List Text
unfolding split_dot named
agent_names [] = []
agent_names (tool ∷ tools) =
    elim (split_dot tool) [ none ↦ [] | some (agent, bare) ↦ named agent ] ++ agent_names tools

unfoldable pub agents_from_tools : List Text → List Text
unfolding agent_names add_new
agents_from_tools tools = add_new [] (agent_names tools)

-- The candidates of each item, in order.
unfoldable pub tool_candidates : List Text → List Text
unfolding split_dot named
tool_candidates [] = []
tool_candidates (item ∷ items) =
    named item
    ++ (elim (split_dot item) [ none ↦ [] | some (agent, bare) ↦ named bare ]
        ++ tool_candidates items)

unfoldable pub expand_tools_invoked : List Text → List Text
unfolding tool_candidates add_new
expand_tools_invoked items = add_new [] (tool_candidates items)
