-- ===== src/Analysis/Snippets/Windows.antt =====
-- core/src/core/analysis/snippets.py: which lines a snippet holds, under which numbers.
use repo_agent.Prelude.{
  ℕ, zero, suc, ◌+◌, ◌-◌, ◌≤◌, ◌<◌, ◌≡◌, refl, sym, ap, ◌∙◌, Option, none, some, List, [], ◌∷◌,
  arith, length, get_elem?, take, drop,
}
use repo_agent.Prelude.Int.{ℤ, clamp, clamp_one, at_least_one}
use repo_agent.Analysis.Snippets.{
  module_snippet_max_lines, end_of, window_start, window_end, enumerate, snippet_lines,
  cap_module_snippet_range,
}

module _ {ℓ} {A : Type ℓ} where
  get_elem?-take : (n i : ℕ) (xs : List A) → i < n → get_elem? (take n xs) i ≡ get_elem? xs i
  get_elem?-take zero i xs less = absurd (omega arith)
  get_elem?-take (suc n) i [] less = refl
  get_elem?-take (suc n) zero (x ∷ xs) less = refl
  get_elem?-take (suc n) (suc i) (x ∷ xs) less = get_elem?-take n i xs (omega arith)

  at_suc : (x : A) (xs : List A) (i j : ℕ) → j ≡ suc i → get_elem? (x ∷ xs) j ≡ get_elem? xs i
  at_suc x xs i j e = ap (get_elem? (x ∷ xs)) e

  get_elem?-drop : (n i : ℕ) (xs : List A) → get_elem? (drop n xs) i ≡ get_elem? xs (n + i)
  get_elem?-drop zero i xs = let same : i ≡ 0 + i = omega arith in ap (get_elem? xs) same
  get_elem?-drop (suc n) i [] = refl
  get_elem?-drop (suc n) i (x ∷ xs) =
      get_elem?-drop n i xs ∙ sym (at_suc x xs (n + i) (suc n + i) (omega arith))

  unfoldable pub numbered_with : ℕ → Option A → Option (ℕ × A)
  numbered_with k none = none
  numbered_with k (some a) = some (k, a)

  get_elem?-enumerate :
      (first i : ℕ) (xs : List A)
      → get_elem? (enumerate first xs) i ≡ numbered_with (first + i) (get_elem? xs i)
  unfolding enumerate numbered_with
  get_elem?-enumerate first i [] = refl
  get_elem?-enumerate first zero (x ∷ xs) =
      let same : first ≡ first + 0 = omega arith in ap (λ k. some (k, x)) same
  get_elem?-enumerate first (suc i) (x ∷ xs) =
      let same : first + 1 + i ≡ first + suc i = omega arith in
      get_elem?-enumerate (first + 1) i xs ∙ ap (λ k. numbered_with k (get_elem? xs i)) same

  length-enumerate : (first : ℕ) (xs : List A) → length (enumerate first xs) ≡ length xs
  unfolding enumerate
  length-enumerate first [] = refl
  length-enumerate first (x ∷ xs) = omega (arith, length-enumerate (first + 1) xs)

  not_past :
      (raw_lines : List A) (line_start line_end context : ℤ)
      → window_start line_start context ≤ length raw_lines
      → snippet_lines raw_lines line_start line_end context
        ≡ enumerate (window_start line_start context) (
            take
              (window_end (length raw_lines) line_start line_end context
                - (window_start line_start context - 1))
              (drop (window_start line_start context - 1) raw_lines))
  unfolding snippet_lines
  not_past raw_lines line_start line_end context within = ground arith

  -- A line of the file that lies in the range asked for, or not further from it than the context, stands
  -- in the snippet under its own number, counted from 1.
  pub snippet_lines-window :
      (raw_lines : List A) (line_start line_end context : ℤ) (k : ℕ)
      → 1 ≤ k
      → k ≤ length raw_lines
      → clamp_one line_start ≤ k + clamp context
      → k ≤ end_of line_end (clamp_one line_start) + clamp context
      → get_elem?
          (snippet_lines raw_lines line_start line_end context)
          (k - window_start line_start context)
        ≡ numbered_with k (get_elem? raw_lines (k - 1))
  unfolding window_start window_end
  snippet_lines-window raw_lines line_start line_end context k one inside above below =
      let first = window_start line_start context in
      let last = window_end (length raw_lines) line_start line_end context in
      let chunk = take (last - (first - 1)) (drop (first - 1) raw_lines) in
      let index : first + (k - first) ≡ k = omega arith in
      let back : first - 1 + (k - first) ≡ k - 1 = omega arith in
      ap (λ ls. get_elem? ls (k - first))
        (not_past raw_lines line_start line_end context (omega arith))
      ∙ (get_elem?-enumerate first (k - first) chunk
          ∙ (ap (λ j. numbered_with j (get_elem? chunk (k - first))) index
              ∙ ap (numbered_with k) (
                  get_elem?-take (last - (first - 1)) (k - first) (drop (first - 1) raw_lines)
                    (omega arith)
                  ∙ (get_elem?-drop (first - 1) (k - first) raw_lines
                      ∙ ap (get_elem? raw_lines) back))))

-- A capped range begins at line 1 or later, is not empty and spans at most 24 lines; a range in order
-- that spans no more, from line 1 on, is kept.
pub cap_module_snippet_range-bounds :
    (line_start line_end : ℤ)
    → let (start, end) = cap_module_snippet_range line_start line_end in
      (1 ≤ start)
      × (start ≤ end)
      × (end < start + module_snippet_max_lines)
      × (clamp_one line_start ≤ clamp line_end
          → clamp line_end < clamp_one line_start + module_snippet_max_lines
          → (start ≡ clamp_one line_start) × (end ≡ clamp line_end))
unfolding cap_module_snippet_range
cap_module_snippet_range-bounds line_start line_end =
    let positive = at_least_one line_start in
    (positive, omega arith, omega arith, λ order short. (refl, omega arith))
