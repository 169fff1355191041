-- ===== src/Memory/Recall/Window.antt =====
-- core/src/core/memory/service.py: the window that `get_context` chooses.
use repo_agent.Prelude.{
  ℕ, ◌+◌, ◌-◌, ◌≤◌, ◌<◌, String, ◌≡◌, refl, sym, ap, ◌∙◌, subst, some, List, [], ◌∷◌, ◌++◌, map,
  arith, dec_lt,
}
use repo_agent.Prelude.Int.{ℤ, clamp}
use repo_agent.Prelude.Reverse.{reverse_onto, reverse, reverse-append, reverse-reverse}
use repo_agent.Prelude.Dict.{lookup}
use repo_agent.Memory.Tables.{
  Session, Turn, Db, turn_from_row, fetch_unfolded, fetch_recent_unfolded, total_estimate,
}
use repo_agent.Memory.Recall.{choose, context_of, get_context}

total_append :
    (xs ys : List Turn) → total_estimate (xs ++ ys) ≡ total_estimate xs + total_estimate ys
unfolding total_estimate
total_append [] ys = omega arith
total_append (x ∷ xs) ys = omega (arith, total_append xs ys)

total_onto :
    (xs ys : List Turn)
    → total_estimate (reverse_onto xs ys) ≡ total_estimate xs + total_estimate ys
unfolding total_estimate reverse_onto
total_onto [] ys = omega arith
total_onto (x ∷ xs) ys = omega (arith, total_onto xs (x ∷ ys))

total_reverse : (xs : List Turn) → total_estimate (reverse xs) ≡ total_estimate xs
unfolding total_estimate
total_reverse xs = omega (arith, total_onto xs [])

-- The first of the rows left out does not fit.
Stops : ℕ → ℕ → List Turn → Type 0
Stops remaining used [] = Unit
Stops remaining used (t ∷ ts) = remaining < used + t.token_estimate

Chosen : ℕ → ℕ → List Turn → List Turn → Type 0
Chosen remaining running rows chosen =
    (rest : List Turn) × (rows ≡ chosen ++ rest)
    × (running + total_estimate chosen ≤ remaining)
    × Stops remaining (running + total_estimate chosen) rest

choose_none : (remaining running : ℕ) → choose remaining running [] ≡ []
unfolding choose
choose_none remaining running = refl

choose_stops :
    (remaining running : ℕ) (t : Turn) (ts : List Turn)
    → remaining < running + t.token_estimate
    → choose remaining running (t ∷ ts) ≡ []
unfolding choose
choose_stops remaining running t ts over = ground arith

choose_takes :
    (remaining running : ℕ) (t : Turn) (ts : List Turn)
    → running + t.token_estimate ≤ remaining
    → choose remaining running (t ∷ ts) ≡ t ∷ choose remaining (running + t.token_estimate) ts
unfolding choose
choose_takes remaining running t ts fits = ground arith

taken :
    (remaining running : ℕ) (t : Turn) (ts chosen : List Turn)
    → Chosen remaining (running + t.token_estimate) ts chosen
    → Chosen remaining running (t ∷ ts) (t ∷ chosen)
unfolding Chosen total_estimate
taken remaining running t ts chosen (rest, split, fits, stops) =
    let same : running + (t.token_estimate + total_estimate chosen)
        ≡ running + t.token_estimate + total_estimate chosen =
      omega arith in
    (rest, ap (◌∷◌ t) split, omega arith, subst (λ n. Stops remaining n rest) (sym same) stops)

choose-Chosen :
    (remaining running : ℕ) (rows : List Turn)
    → running ≤ remaining
    → Chosen remaining running rows (choose remaining running rows)
unfolding Chosen total_estimate Stops
choose-Chosen remaining running [] fits =
    subst (Chosen remaining running []) (sym (choose_none remaining running))
      ([], refl, omega arith, _)
choose-Chosen remaining running (t ∷ ts) fits =
    elim (dec_lt remaining (running + t.token_estimate)) [
      | yes over ↦
          subst (Chosen remaining running (t ∷ ts)) (sym (choose_stops remaining running t ts over))
            (t ∷ ts, refl, omega arith, omega arith)
      | no within ↦
          subst (Chosen remaining running (t ∷ ts))
            (sym (choose_takes remaining running t ts (omega arith)))
            (taken remaining running t ts (choose remaining (running + t.token_estimate) ts)
              (choose-Chosen remaining (running + t.token_estimate) ts (omega arith)))
    ]

-- What precedes the window, and that the last turn of it would not fit in too.
pub IsLongest : ℕ → List Turn → List Turn → Type 0
IsLongest remaining older recent =
    (before : List Turn) (t : Turn)
    → older ≡ before ++ t ∷ []
    → remaining < total_estimate recent + t.token_estimate

Stops-IsLongest :
    (remaining : ℕ) (rest chosen : List Turn)
    → Stops remaining (0 + total_estimate chosen) rest
    → IsLongest remaining (reverse rest) (reverse chosen)
unfolding IsLongest Stops reverse_onto
Stops-IsLongest remaining rest chosen stops before t e =
    let reversed : rest ≡ t ∷ reverse before =
      sym (reverse-reverse rest) ∙ (ap reverse e ∙ reverse-append before (t ∷ [])) in
    let over : remaining < total_estimate chosen + t.token_estimate =
      let first : remaining < 0 + total_estimate chosen + t.token_estimate =
        subst (Stops remaining (0 + total_estimate chosen)) reversed stops in
      omega arith in
    omega (arith, total_reverse chosen)

-- The window of a session is the longest run of its last unfolded turns, oldest first, whose token
-- estimates the budget, less those of the summary, can pay.
pub get_context-window :
    (session_id : String) (token_budget : ℤ) (db : Db) (s : Session)
    → lookup session_id db.sessions ≡ some s
    → (older recent : List Turn) × (fetch_unfolded session_id db.turns ≡ older ++ recent)
      × ((get_context session_id token_budget db).recent_turns ≡ map turn_from_row recent)
      × (total_estimate recent ≤ clamp token_budget - s.summary_token_count)
      × IsLongest (clamp token_budget - s.summary_token_count) older recent
unfolding get_context context_of fetch_recent_unfolded Chosen
get_context-window session_id token_budget db s found =
    let remaining : ℕ = clamp token_budget - s.summary_token_count in
    let rows = fetch_recent_unfolded session_id db.turns in
    let chosen = choose remaining 0 rows in
    let (rest, split, fits, stops) = choose-Chosen remaining 0 rows (omega arith) in
    (
      reverse rest,
      reverse chosen,
      sym (reverse-reverse (fetch_unfolded session_id db.turns))
          ∙ (ap reverse split ∙ reverse-append chosen rest),
      ap (λ o. (context_of token_budget rows o).recent_turns) found,
      omega (arith, total_reverse chosen),
      Stops-IsLongest remaining rest chosen stops,
    )
