-- ===== src/Memory/Tables.antt =====
-- core/src/core/memory/service.py: the tables, what is read from them, and the insert of a turn.
use repo_agent.Prelude.{
  ℕ, ◌+◌, ◌/◌, max, String, Bool, false, not, ◌&&◌, Option, none, some, List, [], ◌∷◌, ◌++◌, str_eq,
  leb, if◌then◌else◌, length,
}
use repo_agent.Prelude.Int.{ℤ, pos, negsuc}
use repo_agent.Prelude.Reverse.{reverse_onto, reverse}
use repo_agent.Prelude.Dict.{Dict, lookup, insert}

pub record Session : Type 0 where
  pub created_at : ℕ
  pub summary : List ℕ
  pub summary_token_count : ℕ

-- A row of `turns`.
pub record Turn : Type 0 where
  pub id : ℕ
  pub session_id : String
  pub role : List ℕ
  pub content : List ℕ
  pub created_at : ℕ
  pub token_estimate : ℕ
  pub folded_at : Option ℕ

-- A row of `response_cache`, less its key.
pub record CacheRow : Type 0 where
  pub response_json : List ℕ
  pub created_at : ℕ

pub record Db : Type 0 where
  pub sessions : Dict Session
  pub turns : List Turn
  pub next_id : ℕ
  pub response_cache : Dict CacheRow

pub record MemoryService : Type 0 where
  pub cache_ttl : ℤ
  pub token_budget : ℤ
  pub recent_turns_to_keep : ℤ

pub record ConversationTurn : Type 0 where
  pub id : ℕ
  pub role : List ℕ
  pub content : List ℕ
  pub created_at : ℕ
  pub token_estimate : ℕ

pub record ConversationContext : Type 0 where
  pub summary : List ℕ
  pub recent_turns : List ConversationTurn

-- n <= z
unfoldable pub at_most : ℕ → ℤ → Bool
at_most n (pos k) = leb n k
at_most n (negsuc k) = false

-- max(1, math.ceil(len(text) / 4)), or 0
unfoldable pub estimate_tokens : List ℕ → ℕ
estimate_tokens [] = 0
estimate_tokens (c ∷ s) = max 1 ((length (c ∷ s) + 3) / 4)

unfoldable pub turn_from_row : Turn → ConversationTurn
turn_from_row t = record {
  id = t.id;
  role = t.role;
  content = t.content;
  created_at = t.created_at;
  token_estimate = t.token_estimate;
}

-- session_id = ? AND folded_at IS NULL
unfoldable pub is_unfolded : String → Turn → Option ℕ → Bool
is_unfolded session_id t none = str_eq t.session_id session_id
is_unfolded session_id t (some folded) = false

unfoldable pub fetch_unfolded : String → List Turn → List Turn
unfolding is_unfolded
fetch_unfolded session_id [] = []
fetch_unfolded session_id (t ∷ ts) =
    let rest = fetch_unfolded session_id ts in
    if is_unfolded session_id t t.folded_at then t ∷ rest else rest

unfoldable pub fetch_recent_unfolded : String → List Turn → List Turn
unfolding fetch_unfolded reverse_onto
fetch_recent_unfolded session_id ts = reverse (fetch_unfolded session_id ts)

-- _ensure_session: INSERT ... ON CONFLICT DO NOTHING
ensure_session : String → ℕ → Option Session → Dict Session → Dict Session
ensure_session session_id created_at none sessions =
    insert session_id (record { created_at = created_at; summary = []; summary_token_count = 0 })
      sessions
ensure_session session_id created_at (some s) sessions = sessions

unfoldable pub total_estimate : List Turn → ℕ
total_estimate [] = 0
total_estimate (t ∷ ts) = t.token_estimate + total_estimate ts

-- The transaction of `append_turn`.
unfoldable pub insert_turn : ℕ → String → List ℕ → List ℕ → Db → Db
unfolding ensure_session estimate_tokens
insert_turn now session_id role content db = record db {
  sessions = ensure_session session_id now (lookup session_id db.sessions) db.sessions;
  turns =
      db.turns
      ++ record {
        id = db.next_id;
        session_id = session_id;
        role = role;
        content = content;
        created_at = now;
        token_estimate = estimate_tokens content;
        folded_at = none;
      }
        ∷ [];
  next_id = db.next_id + 1;
}

over_budget : MemoryService → List Turn → Option Session → Bool
unfolding at_most total_estimate
over_budget m rows none = false
over_budget m rows (some s) =
    not (at_most (s.summary_token_count + total_estimate rows) m.token_budget)
    && not (at_most (length rows) m.recent_turns_to_keep)

unfoldable pub needs_summary : MemoryService → String → Db → Bool
unfolding over_budget fetch_unfolded
needs_summary m session_id db =
    over_budget m (fetch_unfolded session_id db.turns) (lookup session_id db.sessions)
