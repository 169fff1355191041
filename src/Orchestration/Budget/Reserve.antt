-- ===== src/Orchestration/Budget/Reserve.antt =====
-- The time that is kept for the synthesis, and the timeout that it gets.
use repo_agent.Prelude.{
  ℕ, ◌+◌, ◌-◌, ◌≤◌, ◌<◌, String, ◌≡◌, ◌↔◌, true, Option, none, some, List, [], ◌∷◌, arith,
}
use repo_agent.Orchestration.Budget.{
  Budget, Settings, from_settings, remaining, specialist_remaining, apply_prompt_reserve,
  synthesis_timeout, Ceiling, allow_checked, allow_new_call, check,
}
use repo_agent.Observability.Ledger.{Ledger}
use repo_agent.Prelude.Int.{clamp}

unfoldable pub apply_all : List ℕ → Budget → Budget
apply_all [] b = b
apply_all (n ∷ ns) b = apply_all ns (apply_prompt_reserve n b)

-- The reserve in force is never below the configured one, `base`, and is zero if that is.
pub record IsReserved (base : ℕ) (b : Budget) : Type 0 where
  pub configured : b.base_synthesis_reserve ≡ base
  pub floor : base ≤ b.synthesis_reserve
  pub disabled : base ≡ 0 → b.synthesis_reserve ≡ 0

from_settings-IsReserved :
    (s : Settings) (now : ℕ) → IsReserved (clamp s.synthesis_reserve) (from_settings s now)
unfolding from_settings
from_settings-IsReserved s now = ground arith

apply-IsReserved :
    (base n : ℕ) (b : Budget) → IsReserved base b → IsReserved base (apply_prompt_reserve n b)
unfolding apply_prompt_reserve
apply-IsReserved base n b v = ground arith

apply_all-IsReserved :
    (base : ℕ) (ns : List ℕ) (b : Budget) → IsReserved base b → IsReserved base (apply_all ns b)
unfolding apply_all
apply_all-IsReserved base [] b v = v
apply_all-IsReserved base (n ∷ ns) b v =
    apply_all-IsReserved base ns (apply_prompt_reserve n b) (apply-IsReserved base n b v)

apply_mono :
    (m n : ℕ) (b : Budget)
    → m ≤ n
    → (apply_prompt_reserve m b).synthesis_reserve ≤ (apply_prompt_reserve n b).synthesis_reserve
unfolding apply_prompt_reserve
apply_mono m n b h = ground arith

-- A budget made from any settings, after any estimates of the prompt size, has a reserve of at least
-- max(0, synthesis_reserve_s), which stays zero if that is zero. A larger next estimate never gives a
-- smaller reserve than a smaller one.
pub apply_all-reserve :
    (s : Settings) (now m n : ℕ) (ns : List ℕ)
    → m ≤ n
    → let b = apply_all ns (from_settings s now) in
      IsReserved (clamp s.synthesis_reserve) b
      × ((apply_prompt_reserve m b).synthesis_reserve
          ≤ (apply_prompt_reserve n b).synthesis_reserve)
apply_all-reserve s now m n ns h = (
  apply_all-IsReserved _ ns (from_settings s now) (from_settings-IsReserved s now),
  apply_mono m n (apply_all ns (from_settings s now)) h,
)

-- For a positive configured maximum, the timeout of the synthesis ends no later than the safety margin
-- before the deadline, and it is zero, so that the model is not called, exactly when the deadline is
-- at most the safety margin away.
pub synthesis_timeout_bounds :
    (now : ℕ) (prompt_tokens : Option ℕ) (b : Budget)
    → 0 < b.max_synthesis_timeout
    → (synthesis_timeout now prompt_tokens b ≤ remaining now b - b.safety_margin)
      × ((synthesis_timeout now prompt_tokens b ≡ 0)
          ↔ (b.deadline_monotonic ≤ now + b.safety_margin))
unfolding synthesis_timeout
synthesis_timeout_bounds now none b h = ground arith
synthesis_timeout_bounds now (some n) b h = ground arith

check-kept :
    (ledger : Option Ledger) (cid : String) (now : ℕ) (b : Budget)
    → let b' = (check ledger cid now b).1 in
      (b'.deadline_monotonic ≡ b.deadline_monotonic) × (b'.synthesis_reserve ≡ b.synthesis_reserve)
unfolding check
check-kept none cid now b = ground arith
check-kept (some ledger) cid now b = ground arith

allow_checked-reserves :
    (r : Option Ceiling × Budget) (later : ℕ)
    → (allow_checked r later).0 ≡ true
    → 0 < specialist_remaining later r.1
unfolding allow_checked
allow_checked-reserves (none, b) later h = ground arith
allow_checked-reserves (some c, b) later h = cc

-- A new call is allowed only while more than the reserve remains before the deadline, and a call that
-- then takes no longer than the time that specialists have left leaves at least the reserve.
pub allow_new_call-reserves :
    (ledger : Option Ledger) (cid : String) (now later done : ℕ) (b : Budget)
    → (allow_new_call ledger cid now later b).0 ≡ true
    → done ≤ later + specialist_remaining later b
    → (later + b.synthesis_reserve < b.deadline_monotonic)
      × (b.synthesis_reserve ≤ remaining done b)
unfolding allow_new_call
allow_new_call-reserves ledger cid now later done b a h =
    omega
      (arith, allow_checked-reserves (check ledger cid now b) later a, check-kept ledger cid now b)
