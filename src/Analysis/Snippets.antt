-- ===== src/Analysis/Snippets.antt =====
-- core/src/core/analysis/snippets.py. The lines of the file are an argument: resolving the path and
-- reading the file are calls of the operating system.
pub mod Windows
mod Examples
use repo_agent.Prelude.{
  ℕ, zero, suc, ◌+◌, ◌-◌, min, max, List, [], ◌∷◌, ◌++◌, map, ltb, if◌then◌else◌, length, take,
  drop,
}
use repo_agent.Prelude.Int.{ℤ, clamp, clamp_one}
use repo_agent.Prelude.Text.{decimal}

abbrev pub module_snippet_max_lines : ℕ
module_snippet_max_lines = 24

-- max(int(line_end), start)
abbrev pub end_of : ℤ → ℕ → ℕ
end_of line_end start = max (clamp line_end) start

unfoldable pub window_start : ℤ → ℤ → ℕ
window_start line_start context = max 1 (clamp_one line_start - clamp context)

unfoldable pub window_end : ℕ → ℤ → ℤ → ℤ → ℕ
window_end lines line_start line_end context =
    min lines (end_of line_end (clamp_one line_start) + clamp context)

-- enumerate(chunk, start=number)
unfoldable pub enumerate {ℓ} : {A : Type ℓ} → ℕ → List A → List (ℕ × A)
enumerate number [] = []
enumerate number (l ∷ ls) = (number, l) ∷ enumerate (number + 1) ls

-- The numbered lines of the window.
unfoldable pub snippet_lines {ℓ} : {A : Type ℓ} → List A → ℤ → ℤ → ℤ → List (ℕ × A)
unfolding window_start window_end enumerate
snippet_lines raw_lines line_start line_end context =
    let first = window_start line_start context in
    let last = window_end (length raw_lines) line_start line_end context in
    if ltb (length raw_lines) first
    then []
    else enumerate first (take (last - (first - 1)) (drop (first - 1) raw_lines))

spaces : ℕ → List ℕ
spaces zero = []
spaces (suc n) = 32 ∷ spaces n

-- f"{number:>{width}} {line}"
numbered : ℕ → ℕ × List ℕ → List ℕ
unfolding spaces decimal
numbered width (number, line) =
    spaces (width - length (decimal number)) ++ (decimal number ++ 32 ∷ line)

joined : List (List ℕ) → List ℕ
joined [] = []
joined (l ∷ []) = l
joined (l ∷ m ∷ ls) = l ++ 10 ∷ joined (m ∷ ls)

unfoldable pub get_snippet : List (List ℕ) → ℤ → ℤ → ℤ → List ℕ
unfolding snippet_lines numbered joined
get_snippet raw_lines line_start line_end context =
    let last = window_end (length raw_lines) line_start line_end context in
    joined (
      map (numbered (max 4 (length (decimal last))))
        (snippet_lines raw_lines line_start line_end context))

unfoldable pub cap_module_snippet_range : ℤ → ℤ → ℕ × ℕ
cap_module_snippet_range line_start line_end =
    let start = clamp_one line_start in
    (start, min (end_of line_end start) (start + module_snippet_max_lines - 1))
