-- ===== src/Gateway/RateLimiter/Window.antt =====
-- The specification: a limiter that keeps every request it allowed.
use repo_agent.Prelude.{
  ℕ, ◌+◌, ◌≤◌, String, ◌≡◌, refl, Bool, ◌&&◌, List, [], ◌∷◌, arith, str_eq, eq_iff, ltb, leb,
  if◌then◌else◌,
}

abbrev pub one_if : Bool → ℕ
one_if b = if b then 1 else 0

-- How many allowed requests of `key` the window that ends at `now` holds.
unfoldable pub recent : ℕ → String → ℕ → List (String × ℕ) → ℕ
recent window key now [] = 0
recent window key now ((j, a) ∷ log) =
    one_if (str_eq j key && ltb now (a + window)) + recent window key now log

-- A request is allowed if the window that ends at it holds fewer than `cap` allowed ones.
unfoldable pub ideal : ℕ → ℕ → List (String × ℕ) → List (String × ℕ) → List Bool
ideal cap window [] log = []
ideal cap window ((key, now) ∷ requests) log =
    let ok = ltb (recent window key now log) cap in
    ok ∷ ideal cap window requests (if ok then (key, now) ∷ log else log)

-- What the ideal limiter allowed, newest first.
unfoldable pub allowed : ℕ → ℕ → List (String × ℕ) → List (String × ℕ) → List (String × ℕ)
allowed cap window [] log = log
allowed cap window ((key, now) ∷ requests) log =
    allowed cap window requests
      (if ltb (recent window key now log) cap then (key, now) ∷ log else log)

-- Requests in the order of their times, none before `now`.
abbrev pub InOrder : ℕ → List (String × ℕ) → Type 0
InOrder now [] = Unit
InOrder now ((key, t) ∷ requests) = (now ≤ t) × InOrder t requests

-- How many requests of `key` have a time t with lo < t <= lo + window.
unfoldable pub within : ℕ → String → ℕ → List (String × ℕ) → ℕ
within window key lo [] = 0
within window key lo ((j, a) ∷ log) =
    one_if (str_eq j key && (ltb lo a && leb a (lo + window))) + within window key lo log

-- A window that reaches `now` holds no more than the window that ends at `now`.
within-le-recent :
    (window : ℕ) (key : String) (lo now : ℕ) (log : List (String × ℕ))
    → now ≤ lo + window
    → within window key lo log ≤ recent window key now log
unfolding within recent
within-le-recent window key lo now [] h = omega arith
within-le-recent window key lo now ((j, a) ∷ log) h =
    ground (arith, within-le-recent window key lo now log)

within-allowed :
    (cap window : ℕ) (key : String) (requests log : List (String × ℕ))
    → ((lo : ℕ) → within window key lo log ≤ cap)
    → (lo : ℕ) → within window key lo (allowed cap window requests log) ≤ cap
unfolding allowed within
within-allowed cap window key [] log h lo = h lo
within-allowed cap window key ((j, t) ∷ requests) log h lo =
    within-allowed cap window key requests _
      (λ x. ground (arith, h x, eq_iff j key, within-le-recent window key x t log)) lo

pub within-le-cap :
    (cap window : ℕ) (key : String) (requests : List (String × ℕ)) (lo : ℕ)
    → within window key lo (allowed cap window requests []) ≤ cap
unfolding within
within-le-cap cap window key requests lo =
    within-allowed cap window key requests [] (λ x. omega arith) lo

-- The requests that were answered with `true`, newest first.
unfoldable pub granted : List (String × ℕ) → List Bool → List (String × ℕ) → List (String × ℕ)
granted [] oks log = log
granted (r ∷ requests) [] log = log
granted (r ∷ requests) (ok ∷ oks) log = granted requests oks (if ok then r ∷ log else log)

pub granted-ideal :
    (cap window : ℕ) (requests log : List (String × ℕ))
    → granted requests (ideal cap window requests log) log ≡ allowed cap window requests log
unfolding granted ideal allowed
granted-ideal cap window [] log = refl
granted-ideal cap window ((key, t) ∷ requests) log = granted-ideal cap window requests _
