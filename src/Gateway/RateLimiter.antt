-- ===== src/Gateway/RateLimiter.antt =====
-- core/src/core/gateway.py, the class SlidingWindowRateLimiter. The lock makes each `allow` one step.
-- Times and the window are ticks; the window is not negative.
pub mod Window
pub mod Refinement
mod Examples
use repo_agent.Prelude.{
  ℕ, ◌+◌, String, Bool, true, false, Option, none, some, List, [], ◌∷◌, ◌++◌, leb, ◌==◌,
  if◌then◌else◌, length,
}
use repo_agent.Prelude.Int.{ℤ, clamp}
use repo_agent.Prelude.Dict.{Dict, lookup, insert}

pub record Limiter : Type 0 where
  pub max_requests : ℤ
  pub window : ℕ
  pub hits : Dict (List ℕ)

abbrev pub init : ℤ → ℕ → Limiter
init max_requests window = record { max_requests = max_requests; window = window; hits = [] }

-- while bucket and bucket[0] <= timestamp - window: bucket.popleft()
unfoldable pub evict : ℕ → ℕ → List ℕ → List ℕ
evict window now [] = []
evict window now (a ∷ rest) = if leb (a + window) now then evict window now rest else a ∷ rest

-- hits.setdefault(key, deque())
abbrev pub bucket_of : Option (List ℕ) → List ℕ
bucket_of none = []
bucket_of (some bucket) = bucket

record_hit : String → ℕ → List ℕ → Limiter → Bool × Limiter
record_hit key now bucket l =
    if leb (clamp l.max_requests) (length bucket)
    then (false, record l { hits = insert key bucket l.hits })
    else (true, record l { hits = insert key (bucket ++ now ∷ []) l.hits })

unfoldable pub allow : String → ℕ → Limiter → Bool × Limiter
unfolding record_hit
allow key now l =
    if clamp l.max_requests == 0
    then (true, l)
    else record_hit key now (evict l.window now (bucket_of (lookup key l.hits))) l

-- The answers to a sequence of requests, each with its key and its time.
unfoldable pub answers : List (String × ℕ) → Limiter → List Bool
unfolding allow
answers [] l = []
answers ((key, now) ∷ requests) l = let (ok, l') = allow key now l in ok ∷ answers requests l'
