-- ===== src/Memory/Summary/Folding.antt =====
-- core/src/core/memory/service.py: which turns `summarize_session` folds.
use repo_agent.Prelude.{
  ℕ, zero, suc, ◌-◌, ◌<◌, String, ◌≡◌, refl, ap, ◌∙◌, inl, inr, Bool, true, false, some, List, [],
  ◌∷◌, arith, if◌then◌else◌, Option-cases, length, take, drop, length-drop,
}
use repo_agent.Prelude.Int.{ℤ, pos}
use repo_agent.Prelude.Text.{skip_spaces, rstrip}
use repo_agent.Prelude.Dict.{lookup, lookup-insert_same}
use repo_agent.Memory.Tables.{
  Session, Turn, Db, MemoryService, at_most, estimate_tokens, is_unfolded, fetch_unfolded,
}
use repo_agent.Memory.Summary.{
  but_last, last_rows, build_summary_prompt, Completion, parsed, unexpected, raised, Summarized,
  summary_is, has_id, fold_turns, set_summary, store_summary, summarize_rows, summarize_session,
}

-- The rows whose ids are not among those of `folded`.
unmarked : List Turn → List Turn → List Turn
unmarked folded [] = []
unmarked folded (t ∷ ts) =
    let rest = unmarked folded ts in if has_id t.id folded then rest else t ∷ rest

fetch-fold :
    (now : ℕ) (session_id : String) (folded ts : List Turn)
    → fetch_unfolded session_id (fold_turns now folded ts)
      ≡ unmarked folded (fetch_unfolded session_id ts)
unfolding fetch_unfolded is_unfolded fold_turns unmarked
fetch-fold now session_id folded [] = refl
fetch-fold now session_id folded (t ∷ ts) = ground (arith, fetch-fold now session_id folded ts)

unfoldable pub Above : ℕ → List Turn → Type 0
Above i [] = Unit
Above i (t ∷ ts) = (i < t.id) × Above i ts

-- The ids increase.
unfoldable pub IsOrdered : List Turn → Type 0
unfolding Above
IsOrdered [] = Unit
IsOrdered (t ∷ ts) = Above t.id ts × IsOrdered ts

unmarked_none : (ts : List Turn) → unmarked [] ts ≡ ts
unfolding unmarked has_id
unmarked_none [] = refl
unmarked_none (t ∷ ts) = ap (◌∷◌ t) (unmarked_none ts)

unmarked_skip :
    (x : Turn) (folded ts : List Turn)
    → Above x.id ts
    → unmarked (x ∷ folded) ts ≡ unmarked folded ts
unfolding unmarked has_id Above
unmarked_skip x folded [] above = refl
unmarked_skip x folded (t ∷ ts) (a, above) = ground (arith, unmarked_skip x folded ts above)

unmarked_first :
    (x : Turn) (folded ts : List Turn) → unmarked (x ∷ folded) (x ∷ ts) ≡ unmarked (x ∷ folded) ts
unfolding unmarked has_id
unmarked_first x folded ts = ground arith

unmarked-take : (n : ℕ) (ts : List Turn) → IsOrdered ts → unmarked (take n ts) ts ≡ drop n ts
unfolding IsOrdered unmarked
unmarked-take zero ts o = unmarked_none ts
unmarked-take (suc n) [] o = refl
unmarked-take (suc n) (x ∷ ts) (above, o) =
    unmarked_first x (take n ts) ts ∙ (unmarked_skip x (take n ts) ts above ∙ unmarked-take n ts o)

either :
    (P : List Turn → Type 0) (b : Bool) (xs ys : List Turn) → P xs → P ys → P (if b then xs else ys)
either P true xs ys p q = p
either P false xs ys p q = q

fetch-Above :
    (session_id : String) (i : ℕ) (ts : List Turn)
    → Above i ts
    → Above i (fetch_unfolded session_id ts)
unfolding fetch_unfolded Above
fetch-Above session_id i [] above = above
fetch-Above session_id i (t ∷ ts) (a, above) =
    let rest = fetch-Above session_id i ts above in
    either (Above i) (is_unfolded session_id t t.folded_at) (t ∷ fetch_unfolded session_id ts)
      (fetch_unfolded session_id ts) (a, rest) rest

fetch-IsOrdered :
    (session_id : String) (ts : List Turn) → IsOrdered ts → IsOrdered (fetch_unfolded session_id ts)
unfolding IsOrdered fetch_unfolded
fetch-IsOrdered session_id [] o = o
fetch-IsOrdered session_id (t ∷ ts) (above, o) =
    let rest = fetch-IsOrdered session_id ts o in
    either IsOrdered (is_unfolded session_id t t.folded_at) (t ∷ fetch_unfolded session_id ts)
      (fetch_unfolded session_id ts) (fetch-Above session_id t.id ts above, rest) rest

last_rows_length :
    (k : ℕ) (rows : List Turn)
    → suc k < length rows
    → length (drop (length rows - suc k) rows) ≡ suc k
last_rows_length k rows more = omega (arith, length-drop (length rows - suc k) rows)

too_many : (k n : ℕ) (z : ℤ) → z ≡ pos (suc k) → suc k < n → at_most n z ≡ false
unfolding at_most
too_many k n z e more = rw e (ground arith)

folds :
    (m : MemoryService) (complete : List ℕ → Completion) (now : ℕ) (session_id : String)
    (rows : List Turn) (db : Db) (s : Session) (k : ℕ) (text : List ℕ)
    → m.recent_turns_to_keep ≡ pos (suc k)
    → suc k < length rows
    → complete (build_summary_prompt s.summary (take (length rows - suc k) rows) (suc k))
      ≡ parsed text
    → summarize_rows m complete now session_id rows (some s) db
      ≡ store_summary now session_id s (take (length rows - suc k) rows) (parsed text) db
unfolding summarize_rows but_last last_rows
folds m complete now session_id rows db s k text keep more replies =
    rw (too_many k (length rows) m.recent_turns_to_keep keep more)
      (rw keep (rw (last_rows_length k rows more) (rw replies refl)))

-- With at least one turn to keep and more than those unfolded, a summary that the provider returns
-- for the older turns is the session's new summary, and of the unfolded turns the last ones alone,
-- as many as are to be kept, stay unfolded.
pub summarize_session-keeps :
    (m : MemoryService) (complete : List ℕ → Completion) (now : ℕ) (session_id : String) (db : Db)
    (s : Session) (k : ℕ) (text : List ℕ)
    → IsOrdered db.turns
    → lookup session_id db.sessions ≡ some s
    → m.recent_turns_to_keep ≡ pos (suc k)
    → suc k < length (fetch_unfolded session_id db.turns)
    → complete (
        build_summary_prompt s.summary
          (take
            (length (fetch_unfolded session_id db.turns) - suc k)
            (fetch_unfolded session_id db.turns))
          (suc k))
      ≡ parsed text
    → let (r, db') = summarize_session m complete now session_id db in
      (r ≡ summary_is (rstrip (skip_spaces text)))
      × (lookup session_id db'.sessions
          ≡ some (record s {
            summary = rstrip (skip_spaces text);
            summary_token_count = estimate_tokens (rstrip (skip_spaces text));
          }))
      × (fetch_unfolded session_id db'.turns
          ≡ drop
              (length (fetch_unfolded session_id db.turns) - suc k)
              (fetch_unfolded session_id db.turns))
      × (length (fetch_unfolded session_id db'.turns) ≡ suc k)
unfolding summarize_session store_summary set_summary
summarize_session-keeps m complete now session_id db s k text o found keep more replies =
    let rows = fetch_unfolded session_id db.turns in
    let folded = take (length rows - suc k) rows in
    let t = rstrip (skip_spaces text) in
    let result : summarize_session m complete now session_id db
        ≡ store_summary now session_id s folded (parsed text) db =
      ap (λ o. summarize_rows m complete now session_id rows o db) found
      ∙ folds m complete now session_id rows db s k text keep more replies in
    let left : fetch_unfolded session_id (fold_turns now folded db.turns)
        ≡ drop (length rows - suc k) rows =
      fetch-fold now session_id folded db.turns
      ∙ unmarked-take (length rows - suc k) rows (fetch-IsOrdered session_id db.turns o) in
    (
      ap (λ r. r.0) result,
      ap (λ r. lookup session_id r.1.sessions) result
          ∙ lookup-insert_same session_id
              (record s { summary = t; summary_token_count = estimate_tokens t }) db.sessions,
      ap (λ r. fetch_unfolded session_id r.1.turns) result ∙ left,
      ap (λ r. length (fetch_unfolded session_id r.1.turns)) result
          ∙ (ap length left ∙ last_rows_length k rows more),
    )

fold_none : (now : ℕ) (ts : List Turn) → fold_turns now [] ts ≡ ts
unfolding fold_turns has_id
fold_none now [] = refl
fold_none now (t ∷ ts) = ap (◌∷◌ t) (fold_none now ts)

store-turns :
    (now : ℕ) (session_id : String) (s : Session) (c : Completion) (db : Db)
    → (store_summary now session_id s [] c db).1.turns ≡ db.turns
unfolding store_summary
store-turns now session_id s (parsed text) db = fold_none now db.turns
store-turns now session_id s unexpected db = refl
store-turns now session_id s raised db = refl

none_older : (z : ℤ) (rows : List Turn) → z ≡ pos 0 → but_last z rows ≡ []
unfolding but_last
none_older z rows e = rw e refl

turns_if :
    (b : Bool) (x y : Summarized × Db) (ts : List Turn)
    → x.1.turns ≡ ts
    → y.1.turns ≡ ts
    → (if b then x else y).1.turns ≡ ts
turns_if true x y ts p q = p
turns_if false x y ts p q = q

-- With no turn to keep, no turn is ever folded, whatever the provider returns: the rows to fold are
-- an empty slice.
pub summarize_session-folds_none :
    (m : MemoryService) (complete : List ℕ → Completion) (now : ℕ) (session_id : String) (db : Db)
    → m.recent_turns_to_keep ≡ pos 0
    → (summarize_session m complete now session_id db).1.turns ≡ db.turns
unfolding summarize_session summarize_rows
summarize_session-folds_none m complete now session_id db keep =
    let rows = fetch_unfolded session_id db.turns in
    elim (Option-cases (lookup session_id db.sessions)) [
      | inl missing ↦ rw missing refl
      | inr (s, found) ↦ rw found (
          rw (none_older m.recent_turns_to_keep rows keep) (
            turns_if (at_most (length rows) m.recent_turns_to_keep) (summary_is s.summary, db)
              (store_summary now session_id s []
                (complete (
                  build_summary_prompt s.summary []
                    (length (last_rows m.recent_turns_to_keep rows))))
                db)
              db.turns refl (store-turns now session_id s _ db)))
    ]
