-- ===== src/Resilience/Bucket/Steps.antt =====
-- Tasks that share a bucket, as sequences of its critical sections. `opening` counts the tasks whose
-- `acquire` took a slot and awaits the opener; `leased` holds the sessions that callers have.
use repo_agent.Prelude.{ℕ, ◌+◌, ◌-◌, ◌<◌, ◌≡◌, Option, List, [], ◌∷◌, if◌then◌else◌}
use repo_agent.Resilience.Bucket.{
  Bucket, reused, created, pool_closed, waits, exhausted, acquire, open_failed, open_returned,
  release, drop, purge_idle, close, remove, init, Acquired,
}
use repo_agent.Resilience.Bucket.Counts.{count}

pub record System : Type 0 where
  pub bucket : Bucket
  pub open bucket use *
  pub opening : ℕ
  pub leased : List ℕ

-- The pass of `acquire` raises, or waits and tries again later.
abbrev pub IsRefusal : Acquired → Type 0
IsRefusal pool_closed = Unit
IsRefusal waits = Unit
IsRefusal exhausted = Unit
IsRefusal _ = ⊥

-- Callers give back or drop only sessions that they hold, once each, and the opener returns a
-- session that is not yet known.
pub data Step (p q : System) : Type 0 where
  reuse :
      (deadline : Option ℕ) (now s : ℕ) (b : Bucket)
      → acquire deadline now p.bucket ≡ (reused s, b)
      → q ≡ record p { bucket = b; leased = s ∷ p.leased }
      → Step p q
  create :
      (deadline : Option ℕ) (now : ℕ) (b : Bucket)
      → acquire deadline now p.bucket ≡ (created, b)
      → q ≡ record p { bucket = b; opening = p.opening + 1 }
      → Step p q
  refuse :
      (deadline : Option ℕ) (now : ℕ)
      → IsRefusal (acquire deadline now p.bucket).0
      → q ≡ record p { bucket = (acquire deadline now p.bucket).1 }
      → Step p q
  fail_open :
      0 < p.opening
      → q ≡ record p { bucket = open_failed p.bucket; opening = p.opening - 1 }
      → Step p q
  finish_open :
      (s : ℕ)
      → 0 < p.opening
      → count s p.live ≡ 0
      → count s p.leased ≡ 0
      → q ≡ record p {
        bucket = (open_returned s p.bucket).1;
        opening = p.opening - 1;
        leased = if (open_returned s p.bucket).0 then s ∷ p.leased else p.leased;
      }
      → Step p q
  give_back :
      (s : ℕ)
      → 0 < count s p.leased
      → q ≡ record p { bucket = release s p.bucket; leased = remove s p.leased }
      → Step p q
  discard :
      (s : ℕ)
      → 0 < count s p.leased
      → q ≡ record p { bucket = drop s p.bucket; leased = remove s p.leased }
      → Step p q
  purge : q ≡ record p { bucket = purge_idle p.bucket } → Step p q
  shut : q ≡ record p { bucket = close p.bucket } → Step p q

pub data Reach (p : System) : System → Type 0 where
  here : Reach p p
  next : {q r : System} → Reach p q → Step q r → Reach p r

abbrev pub start : ℕ → System
start max_size = record { bucket = init max_size; opening = 0; leased = [] }
