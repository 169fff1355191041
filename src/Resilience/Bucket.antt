-- ===== src/Resilience/Bucket.antt =====
-- core/src/core/resilience/session_pool.py, the class _AgentSessionBucket. Each function below is one
-- critical section under the bucket's condition variable, so that an interleaving of tasks is a
-- sequence of calls of these functions. A session is a number, its object identity; closing a session
-- itself, notifying the waiters and logging are left out. Times are ticks of the event loop's clock.
pub mod Counts
pub mod Steps
pub mod Accounting
pub mod DoubleDrop
mod Examples
use repo_agent.Prelude.{
  ℕ, ◌+◌, ◌-◌, Bool, true, false, Option, none, some, List, [], ◌∷◌, ◌++◌, ltb, leb, ◌==◌,
  if◌then◌else◌, length,
}

pub record Bucket : Type 0 where
  pub max_size : ℕ
  pub idle : List ℕ
  pub live : List ℕ
  pub size : ℕ
  pub closed : Bool

-- __init__; `_resolve_max_sessions` makes the maximum at least 1.
unfoldable pub init : ℕ → Bucket
init max_size = record { max_size = max_size; idle = []; live = []; size = 0; closed = false }

-- `in` and `list.remove` on a list of sessions.
unfoldable pub contains : ℕ → List ℕ → Bool
contains s [] = false
contains s (x ∷ xs) = if x == s then true else contains s xs

unfoldable pub remove : ℕ → List ℕ → List ℕ
remove s [] = []
remove s (x ∷ xs) = if x == s then xs else x ∷ remove s xs

abbrev pub remove_if_in : ℕ → List ℕ → List ℕ
remove_if_in s xs = if contains s xs then remove s xs else xs

-- `list.pop()`: the last entry, and the entries before it.
push_front : ℕ → Option (ℕ × List ℕ) → Option (ℕ × List ℕ)
push_front x none = some (x, [])
push_front x (some (last, before)) = some (last, x ∷ before)

unfoldable pub pop : List ℕ → Option (ℕ × List ℕ)
unfolding push_front
pop [] = none
pop (x ∷ xs) = push_front x (pop xs)

-- One pass of the loop of `acquire`: it raises, hands out an idle session, takes a slot for a new
-- session, or waits on the condition.
pub data Acquired : Type 0 where
  pool_closed : Acquired
  reused : ℕ → Acquired
  created : Acquired
  waits : Acquired
  exhausted : Acquired

-- deadline - now <= 0
unfoldable pub wait_until : Option ℕ → ℕ → Acquired
wait_until none now = waits
wait_until (some deadline) now = if leb deadline now then exhausted else waits

unfoldable pub acquire_idle : Option (ℕ × List ℕ) → Option ℕ → ℕ → Bucket → Acquired × Bucket
unfolding wait_until
acquire_idle (some (s, rest)) deadline now b = (reused s, record b { idle = rest })
acquire_idle none deadline now b =
    if ltb b.size b.max_size
    then (created, record b { size = b.size + 1 })
    else (wait_until deadline now, b)

unfoldable pub acquire : Option ℕ → ℕ → Bucket → Acquired × Bucket
unfolding acquire_idle pop
acquire deadline now b =
    if b.closed then (pool_closed, b) else acquire_idle (pop b.idle) deadline now b

-- The opener raised: the slot that `created` took is given back.
unfoldable pub open_failed : Bucket → Bucket
open_failed b = record b { size = b.size - 1 }

-- The opener returned `s`. The flag says whether the caller gets the session: a bucket that was
-- closed in the meantime closes `s` and raises.
unfoldable pub open_returned : ℕ → Bucket → Bool × Bucket
open_returned s b =
    if b.closed
    then (false, record b { size = b.size - 1 })
    else (true, record b { live = b.live ++ s ∷ [] })

unfoldable pub release : ℕ → Bucket → Bucket
release s b = if b.closed then b else record b { idle = b.idle ++ s ∷ [] }

-- `discard_nowait` runs it in a task of its own.
unfoldable pub drop : ℕ → Bucket → Bucket
drop s b = record b {
  live = remove_if_in s b.live;
  idle = remove_if_in s b.idle;
  size = b.size - 1;
}

unfoldable pub remove_all : List ℕ → List ℕ → List ℕ
remove_all [] xs = xs
remove_all (s ∷ ss) xs = remove_all ss (remove_if_in s xs)

unfoldable pub purge_idle : Bucket → Bucket
unfolding remove_all
purge_idle b = record b {
  live = remove_all b.idle b.live;
  idle = [];
  size = b.size - length b.idle;
}

unfoldable pub close : Bucket → Bucket
close b = record b { live = []; idle = []; size = 0; closed = true }
