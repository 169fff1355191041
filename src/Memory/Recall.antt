-- ===== src/Memory/Recall.antt =====
-- core/src/core/memory/service.py: `get_context`.
pub mod Window
use repo_agent.Prelude.{
  ℕ, ◌+◌, ◌-◌, String, Option, none, some, List, [], ◌∷◌, map, ltb, if◌then◌else◌,
}
use repo_agent.Prelude.Int.{ℤ, clamp}
use repo_agent.Prelude.Reverse.{reverse_onto, reverse}
use repo_agent.Prelude.Dict.{lookup}
use repo_agent.Memory.Tables.{
  Session, Turn, Db, ConversationContext, turn_from_row, fetch_recent_unfolded,
}

-- The loop over the rows, the most recent first.
unfoldable pub choose : ℕ → ℕ → List Turn → List Turn
choose remaining running [] = []
choose remaining running (t ∷ ts) =
    let rest = choose remaining (running + t.token_estimate) ts in
    if ltb remaining (running + t.token_estimate) then [] else t ∷ rest

context_of : ℤ → List Turn → Option Session → ConversationContext
unfolding choose turn_from_row reverse_onto
context_of token_budget rows none = record { summary = []; recent_turns = [] }
context_of token_budget rows (some s) = record {
  summary = s.summary;
  recent_turns =
      map turn_from_row (reverse (choose (clamp token_budget - s.summary_token_count) 0 rows));
}

unfoldable pub get_context : String → ℤ → Db → ConversationContext
unfolding context_of fetch_recent_unfolded
get_context session_id token_budget db =
    context_of token_budget (fetch_recent_unfolded session_id db.turns)
      (lookup session_id db.sessions)
