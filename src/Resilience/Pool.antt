-- ===== src/Resilience/Pool.antt =====
-- core/src/core/resilience/session_pool.py, `AgentSessionPool._call_with_session` and `call`, from
-- where the breaker lets the call through. A script says how the acquisitions and the invocations of
-- one attempt end; the attempts of one call are in sequence, and other tasks are left out.
pub mod Stranded
mod Examples
use repo_agent.Prelude.{ℕ, zero, suc, Bool, true, false, Option, List, [], ◌∷◌, ◌++◌, if◌then◌else◌}
use repo_agent.Prelude.Int.{ℤ}
use repo_agent.Resilience.Bucket.{
  Bucket, Acquired, pool_closed, reused, created, waits, exhausted, acquire, open_failed,
  open_returned, release, drop, purge_idle, remove_if_in,
}
use repo_agent.Resilience.Retry.{
  Attempt, finished, timed_out, torn_down, caller_cancelled, transient, fatal, Raised,
  timeout_error, connection_error, other, Ended, value, raises, await_with_timeout_retry,
}

-- AgentUnavailableError; ConnectionError and OSError; any other exception.
pub data Fault : Type 0 where
  unavailable broken unexpected : Fault

-- One of TRANSIENT_ERRORS is tried again.
failed : {A : Type 0} → Fault → Attempt A Fault
failed unavailable = transient unavailable
failed broken = transient broken
failed unexpected = fatal unexpected

-- What the opener does: a session, an exception, or nothing before the timeout; or it is cancelled,
-- inside the client or by the caller. The last three are no Exception, so that the slot that was
-- counted for the session is not given back.
pub data Opened : Type 0 where
  opens : ℕ → Opened
  fails : Fault → Opened
  stalls : Opened
  tears : Opened
  is_cancelled : Opened

-- The pass at which an acquisition ends, and what the opener does if it is asked.
pub record Opening : Type 0 where
  pub deadline : Option ℕ
  pub now : ℕ
  pub opened : Opened

-- A result, an exception, nothing before the timeout, or a cancellation: inside the client, or by the
-- caller. The last three are no Exception, so that the session is neither released nor dropped.
pub data Invoked (A : Type 0) : Type 0 where
  answers : A → Invoked A
  breaks : Fault → Invoked A
  hangs : Invoked A
  torn : Invoked A
  cancelled : Invoked A

pub record Script (A : Type 0) : Type 0 where
  pub first : Opening
  pub invoked : Invoked A
  pub again : Opening
  pub invoked_again : Invoked A

-- A bucket with the sessions that a call tracks.
pub record Pool : Type 0 where
  pub bucket : Bucket
  pub in_flight : List ℕ

-- A session with whether it is reused; or the exception; or no session until the attempt times out or
-- is cancelled, inside the client or by the caller.
pub data Got : Type 0 where
  got : ℕ → Bool → Got
  refused : Fault → Got
  waiting : Got
  torn_opening : Got
  stopped : Got

unfoldable pub got_opened : ℕ → Bool × Bucket → Got × Bucket
got_opened s (true, b) = (got s false, b)
got_opened s (false, b) = (refused unavailable, b)

unfoldable pub after_pass : Opening → Acquired × Bucket → Got × Bucket
unfolding got_opened open_returned open_failed
after_pass o (pool_closed, b) = (refused unavailable, b)
after_pass o (exhausted, b) = (refused unavailable, b)
after_pass o (waits, b) = (waiting, b)
after_pass o (reused s, b) = (got s true, b)
after_pass o (created, b) = elim o.opened [
  | opens s ↦ got_opened s (open_returned s b)
  | fails e ↦ (refused e, open_failed b)
  | stalls ↦ (waiting, b)
  | tears ↦ (torn_opening, b)
  | is_cancelled ↦ (stopped, b)
]

unfoldable pub acquire_session : Opening → Bucket → Got × Bucket
unfolding after_pass acquire
acquire_session o b = after_pass o (acquire o.deadline o.now b)

-- in_flight.append(session)
unfoldable pub track : ℕ → Bucket → Pool → Pool
track s b p = record { bucket = b; in_flight = p.in_flight ++ s ∷ [] }

-- What releases or drops a session stops tracking it.
unfoldable pub hand_back : ℕ → Bucket → Pool → Pool
hand_back s b p = record { bucket = b; in_flight = remove_if_in s p.in_flight }

second_session : {A : Type 0} → ℕ → Invoked A → Pool → Attempt A Fault × Pool
unfolding hand_back release drop failed
second_session s (answers a) p = (finished a, hand_back s (release s p.bucket) p)
second_session s (breaks e) p = (failed e, hand_back s (drop s p.bucket) p)
second_session s hangs p = (timed_out, p)
second_session s torn p = (torn_down, p)
second_session s cancelled p = (caller_cancelled, p)

second_try : {A : Type 0} → Script A → Got × Bucket → Pool → Attempt A Fault × Pool
unfolding second_session track failed
second_try r (got s fresh, b) p = second_session s r.invoked_again (track s b p)
second_try r (refused e, b) p = (failed e, record p { bucket = b })
second_try r (waiting, b) p = (timed_out, record p { bucket = b })
second_try r (torn_opening, b) p = (torn_down, record p { bucket = b })
second_try r (stopped, b) p = (caller_cancelled, record p { bucket = b })

-- A reused session may be stale: the idle ones are dropped, and another is tried once.
unfoldable pub after_break : {A : Type 0} → Script A → Bool → Fault → Pool → Attempt A Fault × Pool
unfolding second_try acquire_session purge_idle failed
after_break r false e p = (failed e, p)
after_break r true e p = second_try r (acquire_session r.again (purge_idle p.bucket)) p

unfoldable pub first_session :
    {A : Type 0} → Script A → ℕ → Bool → Invoked A → Pool → Attempt A Fault × Pool
unfolding after_break hand_back release drop
first_session r s is_reused (answers a) p = (finished a, hand_back s (release s p.bucket) p)
first_session r s is_reused (breaks e) p =
    after_break r is_reused e (hand_back s (drop s p.bucket) p)
first_session r s is_reused hangs p = (timed_out, p)
first_session r s is_reused torn p = (torn_down, p)
first_session r s is_reused cancelled p = (caller_cancelled, p)

unfoldable pub first_try : {A : Type 0} → Script A → Got × Bucket → Pool → Attempt A Fault × Pool
unfolding first_session track failed
first_try r (got s is_reused, b) p = first_session r s is_reused r.invoked (track s b p)
first_try r (refused e, b) p = (failed e, record p { bucket = b })
first_try r (waiting, b) p = (timed_out, record p { bucket = b })
first_try r (torn_opening, b) p = (torn_down, record p { bucket = b })
first_try r (stopped, b) p = (caller_cancelled, record p { bucket = b })

unfoldable pub call_with_session : {A : Type 0} → Script A → Pool → Attempt A Fault × Pool
unfolding first_try acquire_session
call_with_session r p = first_try r (acquire_session r.first p.bucket) p

-- The pool in front of attempt n.
unfoldable pub pool_before : {A : Type 0} → (ℕ → Script A) → Pool → ℕ → Pool
unfolding call_with_session
pool_before scripts p zero = p
pool_before scripts p (suc n) = (call_with_session (scripts n) (pool_before scripts p n)).1

unfoldable pub attempt_end : {A : Type 0} → (ℕ → Script A) → Pool → ℕ → Attempt A Fault
unfolding call_with_session pool_before
attempt_end scripts p n = (call_with_session (scripts n) (pool_before scripts p n)).0

-- bucket.discard_nowait(stranded), for each
discard_all : List ℕ → Bucket → Bucket
unfolding drop
discard_all [] b = b
discard_all (s ∷ ss) b = discard_all ss (drop s b)

-- The exceptions that `call` turns into an AgentUnavailableError, and the others.
is_reclaiming : Raised Fault → Bool
is_reclaiming timeout_error = true
is_reclaiming connection_error = true
is_reclaiming (other unavailable) = true
is_reclaiming (other broken) = true
is_reclaiming e = false

unfoldable pub settle : {A : Type 0} → Ended A Fault → Pool → Bucket
unfolding discard_all is_reclaiming
settle (value a) p = p.bucket
settle (raises e) p = if is_reclaiming e then discard_all p.in_flight p.bucket else p.bucket

unfoldable pub call : {A : Type 0} → (ℕ → Script A) → ℤ → Bucket → Ended A Fault × Bucket
unfolding attempt_end pool_before settle await_with_timeout_retry
call scripts retry_count b =
    let p : Pool = record { bucket = b; in_flight = [] } in
    let (r, attempts) = await_with_timeout_retry (attempt_end scripts p) retry_count in
    (r, settle r (pool_before scripts p attempts))
