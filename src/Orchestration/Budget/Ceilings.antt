-- ===== src/Orchestration/Budget/Ceilings.antt =====
-- When a ceiling trips, and that it stays tripped.
use repo_agent.Prelude.{
  ℕ, ◌<◌, String, ◌≡◌, ap, ◌↔◌, false, Option, none, some, List, [], ◌∷◌, arith,
}
use repo_agent.Observability.Ledger.{Ledger, snapshot}
use repo_agent.Orchestration.Budget.{Budget, Ceiling, check, allow_new_call, apply_prompt_reserve}

-- What a request does with its budget, in any order.
pub data Use : Type 0 where
  checks : Option Ledger → String → ℕ → Use
  asks : Option Ledger → String → ℕ → ℕ → Use
  applies : ℕ → Use

unfoldable pub step : Use → Budget → Budget
step (checks ledger cid now) b = (check ledger cid now b).1
step (asks ledger cid now later) b = (allow_new_call ledger cid now later b).1
step (applies n) b = apply_prompt_reserve n b

unfoldable pub run : List Use → Budget → Budget
unfolding step
run [] b = b
run (u ∷ us) b = run us (step u b)

check-latched :
    (ledger : Option Ledger) (cid : String) (now : ℕ) (b : Budget) (c : Ceiling)
    → b.exhausted ≡ some c
    → check ledger cid now b ≡ (some c, b)
unfolding check
check-latched ledger cid now b c h = ground arith

allow_new_call-latched :
    (ledger : Option Ledger) (cid : String) (now later : ℕ) (b : Budget) (c : Ceiling)
    → b.exhausted ≡ some c
    → allow_new_call ledger cid now later b ≡ (false, b)
unfolding allow_new_call check
allow_new_call-latched ledger cid now later b c h = ground arith

step-latched :
    (u : Use) (b : Budget) (c : Ceiling) → b.exhausted ≡ some c → (step u b).exhausted ≡ some c
unfolding step
step-latched (checks ledger cid now) b c h = ground (arith, check-latched ledger cid now b c h)
step-latched (asks ledger cid now later) b c h =
    ground (arith, allow_new_call-latched ledger cid now later b c h)
step-latched (applies n) b c h = unfold apply_prompt_reserve in ground arith

run-latched :
    (us : List Use) (b : Budget) (c : Ceiling)
    → b.exhausted ≡ some c
    → (run us b).exhausted ≡ some c
unfolding run
run-latched [] b c h = h
run-latched (u ∷ us) b c h = run-latched us (step u b) c (step-latched u b c h)

check-stores :
    (ledger : Option Ledger) (cid : String) (now : ℕ) (b : Budget) (c : Ceiling)
    → (check ledger cid now b).0 ≡ some c
    → (check ledger cid now b).1.exhausted ≡ some c
unfolding check
check-stores none cid now b c h = ground arith
check-stores (some ledger) cid now b c h = ground arith

-- Once `check` has reported a ceiling, every later `check` reports the same one and every later
-- `allow_new_call` refuses, whatever the clock, the ledger and the uses of the budget in between.
pub check-stays_exhausted :
    (l₁ l₂ : Option Ledger) (cid : String) (t₁ t₂ t₃ : ℕ) (us : List Use) (b : Budget) (c : Ceiling)
    → (check l₁ cid t₁ b).0 ≡ some c
    → ((check l₂ cid t₂ (run us (check l₁ cid t₁ b).1)).0 ≡ some c)
      × ((allow_new_call l₂ cid t₂ t₃ (run us (check l₁ cid t₁ b).1)).0 ≡ false)
check-stays_exhausted l₁ l₂ cid t₁ t₂ t₃ us b c h =
    let e = run-latched us _ c (check-stores l₁ cid t₁ b c h) in
    (
      ap (λ r. r.0) (check-latched l₂ cid t₂ _ c e),
      ap (λ r. r.0) (allow_new_call-latched l₂ cid t₂ t₃ _ c e),
    )

-- The amount spent is below the ceiling, if there is one.
abbrev pub Below : ℕ → Option ℕ → Type 0
Below spent none = Unit
Below spent (some limit) = spent < limit

-- For a budget that is not exhausted and a ledger, `check` reports nothing exactly when the deadline
-- has not come and both the tokens and the cost of the request's snapshot are below their ceilings.
pub check-none :
    (ledger : Ledger) (cid : String) (now : ℕ) (b : Budget)
    → b.exhausted ≡ none
    → ((check (some ledger) cid now b).0 ≡ none) ↔ (
        (now < b.deadline_monotonic)
        × Below (snapshot cid ledger).total b.token_ceiling
        × Below (snapshot cid ledger).cost b.cost_max)
unfolding check
check-none ledger cid now b h = ground arith
