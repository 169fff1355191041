-- ===== src/Memory/Summary.antt =====
-- core/src/core/memory/service.py: `append_turn` and `summarize_session`.
pub mod Folding
use repo_agent.Prelude.{
  ℕ, zero, suc, ◌-◌, String, Bool, false, not, ◌||◌, Option, none, some, List, [], ◌∷◌, ◌++◌, map,
  ◌==◌, if◌then◌else◌, length, take, drop,
}
use repo_agent.Prelude.Int.{ℤ, pos, negsuc}
use repo_agent.Prelude.Dict.{lookup, insert}
use repo_agent.Prelude.Text.{codes, skip_spaces, rstrip, decimal}
use repo_agent.Memory.Tables.{
  Session, Turn, Db, MemoryService, at_most, estimate_tokens, fetch_unfolded, insert_turn,
  needs_summary,
}

-- rows[:-k] and rows[-k:]
unfoldable pub but_last : {A : Type 0} → ℤ → List A → List A
but_last (pos zero) rows = []
but_last (pos (suc k)) rows = take (length rows - suc k) rows
but_last (negsuc k) rows = take (suc k) rows

unfoldable pub last_rows : {A : Type 0} → ℤ → List A → List A
last_rows (pos zero) rows = rows
last_rows (pos (suc k)) rows = drop (length rows - suc k) rows
last_rows (negsuc k) rows = drop (suc k) rows

folded_line : Turn → List ℕ
folded_line t = codes "- [" ++ (t.role ++ (codes "] " ++ t.content))

-- "\n".join
joined_lines : List (List ℕ) → List ℕ
joined_lines [] = []
joined_lines (l ∷ []) = l
joined_lines (l ∷ m ∷ ls) = l ++ 10 ∷ joined_lines (m ∷ ls)

-- text or default
or_text : List ℕ → List ℕ → List ℕ
or_text [] default = default
or_text (c ∷ s) default = c ∷ s

unfoldable pub build_summary_prompt : List ℕ → List Turn → ℕ → List ℕ
unfolding folded_line joined_lines or_text decimal
build_summary_prompt existing folded retained =
    codes
      "Update the rolling conversation summary using ONLY the folded turns below.\nDo not include or infer details from retained turns that are not shown here.\n\nExisting summary:\n"
    ++ (or_text existing (codes "(empty)")
        ++ (codes "\n\nFolded turns to summarize:\n"
            ++ (or_text (joined_lines (map folded_line folded)) (codes "- none")
                ++ (codes "\n\nRecent turns retained verbatim outside the summary: "
                    ++ decimal retained))))

-- What `complete` of the provider does with the prompt: a summary, another result, or an exception.
pub data Completion : Type 0 where
  parsed : List ℕ → Completion
  unexpected : Completion
  raised : Completion

pub data Summarized : Type 0 where
  summary_is : List ℕ → Summarized
  type_error : Summarized
  provider_error : Summarized

-- UPDATE turns SET folded_at = ? WHERE id = ?, for each of the rows.
has_id : ℕ → List Turn → Bool
has_id i [] = false
has_id i (t ∷ ts) = t.id == i || has_id i ts

unfoldable pub fold_turns : ℕ → List Turn → List Turn → List Turn
unfolding has_id
fold_turns now folded [] = []
fold_turns now folded (t ∷ ts) =
    (if has_id t.id folded then record t { folded_at = some now } else t) ∷ fold_turns now folded ts

-- UPDATE sessions SET summary = ?, summary_token_count = ? WHERE session_id = ?
set_summary : String → List ℕ → Session → Db → Db
unfolding estimate_tokens
set_summary session_id summary s db = record db {
  sessions =
      insert session_id
        (record s { summary = summary; summary_token_count = estimate_tokens summary }) db.sessions;
}

store_summary : ℕ → String → Session → List Turn → Completion → Db → Summarized × Db
unfolding set_summary fold_turns rstrip
store_summary now session_id s folded (parsed text) db =
    let summary = rstrip (skip_spaces text) in
    (
      summary_is summary,
      record (set_summary session_id summary s db) { turns = fold_turns now folded db.turns },
    )
store_summary now session_id s folded unexpected db = (type_error, db)
store_summary now session_id s folded raised db = (provider_error, db)

summarize_rows :
    MemoryService
    → (List ℕ → Completion)
    → ℕ
    → String
    → List Turn
    → Option Session
    → Db
    → Summarized × Db
unfolding at_most store_summary build_summary_prompt but_last last_rows
summarize_rows m complete now session_id rows none db = (summary_is [], db)
summarize_rows m complete now session_id rows (some s) db =
    if at_most (length rows) m.recent_turns_to_keep
    then (summary_is s.summary, db)
    else store_summary now session_id s (but_last m.recent_turns_to_keep rows)
        (complete (
          build_summary_prompt s.summary (but_last m.recent_turns_to_keep rows)
            (length (last_rows m.recent_turns_to_keep rows))))
        db

unfoldable pub summarize_session :
    MemoryService → (List ℕ → Completion) → ℕ → String → Db → Summarized × Db
unfolding summarize_rows fetch_unfolded
summarize_session m complete now session_id db =
    summarize_rows m complete now session_id (fetch_unfolded session_id db.turns)
      (lookup session_id db.sessions) db

-- The turn is stored; then the older turns are folded, at the time `later`, if the budget asks for it.
unfoldable pub append_turn :
    MemoryService
    → (List ℕ → Completion)
    → ℕ
    → ℕ
    → String
    → List ℕ
    → List ℕ
    → Db
    → Option Summarized × Db
unfolding insert_turn needs_summary
append_turn m complete now later session_id role content db =
    let stored = insert_turn now session_id role content db in
    if needs_summary m session_id stored
    then (let (r, db') = summarize_session m complete later session_id stored in (some r, db'))
    else (none, stored)
