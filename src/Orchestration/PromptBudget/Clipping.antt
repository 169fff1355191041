-- ===== src/Orchestration/PromptBudget/Clipping.antt =====
-- core/src/core/orchestration/prompt_budget.py: how long a clipped snippet is.
use repo_agent.Prelude.{
  ℕ, zero, suc, ◌+◌, ◌-◌, ◌≤◌, ◌<◌, min, ◌≡◌, refl, ap, ◌∙◌, arith, ltb, if◌then◌else◌, length,
  take, length-append, length-take,
}
use repo_agent.Prelude.Words.{Text}
use repo_agent.Orchestration.PromptBudget.{omission_suffix, kept_chars, clip_to, clip}

kept_some : (n m : ℕ) → suc n + m ≡ (if ltb 0 (suc n) then suc n + m else 0)
kept_some n m = ground arith

length-clip_to :
    (n : ℕ) (s : Text)
    → n ≤ length s
    → length (clip_to n s) ≡ (if ltb 0 n then n + length omission_suffix else 0)
unfolding clip_to
length-clip_to zero s h = refl
length-clip_to (suc n) s h =
    let t : min (suc n) (length s) ≡ suc n = omega arith in
    length-append (take (suc n) s) omission_suffix
    ∙ ap (λ x. x + length omission_suffix) (length-take (suc n) s ∙ t)
    ∙ kept_some n (length omission_suffix)

clipped_length :
    (chars excess kept : ℕ)
    → kept ≡ chars - excess
    → (if ltb 0 kept then kept + 16 else 0)
      ≡ (if ltb excess chars then (chars - excess) + 16 else 0)
clipped_length chars excess kept e = ground arith

kept_chars_lem :
    (chars excess : ℕ) → 0 < excess → 0 < chars → kept_chars chars excess ≡ chars - excess
unfolding kept_chars
kept_chars_lem chars excess h k = ground arith

-- A snippet that is clipped by a number of characters from 1 on loses these and gains the suffix, or
-- is emptied if it has no more than these. So it gets longer when the number is below 16, the length
-- of the suffix.
pub length-clip :
    (excess : ℕ) (s : Text)
    → 0 < excess
    → 0 < length s
    → length (clip excess s) ≡ (if ltb excess (length s) then (length s - excess) + 16 else 0)
unfolding clip
length-clip excess s h k =
    let e = kept_chars_lem (length s) excess h k in
    length-clip_to (kept_chars (length s) excess) s (omega arith)
    ∙ clipped_length (length s) excess (kept_chars (length s) excess) e
