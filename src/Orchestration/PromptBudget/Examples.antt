-- ===== src/Orchestration/PromptBudget/Examples.antt =====
-- A payload of one snippet of 84 characters, measured by its length.
use repo_agent.Prelude.{ℕ, ◌+◌, ◌-◌, ◌/◌, ◌≡◌, refl, ◌++◌, arith, ltb, if◌then◌else◌, length}
use repo_agent.Prelude.Int.{pos}
use repo_agent.Prelude.Text.{codes}
use repo_agent.Prelude.Words.{Text}
use repo_agent.Prelude.Json.{Json, str, object, field, end, get_field}
use repo_agent.Orchestration.PromptBudget.{clip, apply_prompt_budget, snippets_then_lists}
use repo_agent.Orchestration.PromptBudget.Clipping.{length-clip}

abbrev seven : Text
seven = codes "return "

abbrev body : Text
body =
    seven ++ seven ++ seven ++ seven ++ seven ++ seven ++ seven ++ seven ++ seven ++ seven ++ seven
    ++ seven

abbrev snippet_payload : Json
snippet_payload = object (field "text" (str body) end)

text_tokens : Json → ℕ
text_tokens (str s) = (length s + 3) / 4
text_tokens v = 0

payload_tokens : Json → ℕ
unfolding text_tokens get_field
payload_tokens (object fs) = text_tokens (get_field "text" fs)
payload_tokens v = 0

-- One token over its budget of 20, the payload ends with 24.
one_over : payload_tokens snippet_payload ≡ 21
unfolding payload_tokens
one_over = refl

length-clip_example :
    length (clip 4 body) ≡ (if ltb 4 (length body) then (length body - 4) + 16 else 0)
length-clip_example = length-clip 4 body (omega arith) (omega arith)

ends_longer :
    payload_tokens
      (apply_prompt_budget payload_tokens (pos 20) snippets_then_lists snippet_payload).0
    ≡ 24
unfolding apply_prompt_budget payload_tokens
ends_longer = refl
