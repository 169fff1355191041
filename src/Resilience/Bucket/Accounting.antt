-- ===== src/Resilience/Bucket/Accounting.antt =====
-- The size of a bucket accounts for its sessions, so that it bounds them.
use repo_agent.Prelude.{
  ℕ, ◌+◌, ◌≤◌, ◌<◌, ◌≡◌, ◌≢◌, true, false, Option, none, [], ◌∷◌, arith, length, length-append,
}
use repo_agent.Resilience.Bucket.{
  acquire, open_failed, open_returned, release, drop, purge_idle, close, init, contains, remove_all,
  pop, Bucket,
}
use repo_agent.Resilience.Bucket.Counts.{
  pop-append-ne-none, count-le-length, count, count-snoc, count-remove, count-remove_if_in,
  length-remove_if_in, pop-snoc, count-remove_all, length-remove_all,
}
use repo_agent.Resilience.Bucket.Steps.{
  here, IsRefusal, System, Step, reuse, create, refuse, fail_open, finish_open, give_back, discard,
  purge, shut, start, Reach, next,
}

-- While the bucket is open, its size counts the live sessions and those that are being opened, each
-- live session is idle or leased to one caller, and no session is live twice.
pub record Open (p : System) : Type 0 where
  pub sized : p.size ≡ length p.live + p.opening
  pub split : (s : ℕ) → count s p.live ≡ count s p.idle + count s p.leased
  pub distinct : (s : ℕ) → count s p.live ≤ 1

pub record Accounts (p : System) : Type 0 where
  pub bounded : p.size ≤ p.max_size
  pub while_open : p.closed ≡ false → Open p
  pub when_closed : p.closed ≡ true → (p.live ≡ []) × (p.idle ≡ [])

start-Accounts : (max_size : ℕ) → Accounts (start max_size)
unfolding init count
start-Accounts max_size = record {
  bounded = omega arith;
  while_open =
      λ h. record { sized = omega arith; split = λ s. omega arith; distinct = λ s. omega arith };
  when_closed = λ h. cc;
}

module _ {p q : System} where
  Step-bounded : Step p q → Accounts p → q.size ≤ q.max_size
  unfolding acquire open_failed open_returned release drop purge_idle close
  Step-bounded (reuse deadline now s b e h) v = ground (arith, v.bounded)
  Step-bounded (create deadline now b e h) v = ground (arith, v.bounded)
  Step-bounded (refuse deadline now k h) v = ground (arith, v.bounded)
  Step-bounded (fail_open k h) v = ground (arith, v.bounded)
  Step-bounded (finish_open s k f g h) v = ground (arith, v.bounded)
  Step-bounded (give_back s k h) v = ground (arith, v.bounded)
  Step-bounded (discard s k h) v = ground (arith, v.bounded)
  Step-bounded (purge h) v = ground (arith, v.bounded)
  Step-bounded (shut h) v = ground (arith, v.bounded)

  Step-closed : Step p q → Accounts p → q.closed ≡ true → (q.live ≡ []) × (q.idle ≡ [])
  unfolding acquire open_failed open_returned release drop purge_idle close contains remove_all pop
  Step-closed (reuse deadline now s b e h) v k = ground (arith, v.when_closed)
  Step-closed (create deadline now b e h) v k = ground (arith, v.when_closed)
  Step-closed (refuse deadline now l h) v k = ground (arith, v.when_closed)
  Step-closed (fail_open l h) v k = ground (arith, v.when_closed)
  Step-closed (finish_open s l f g h) v k = ground (arith, v.when_closed)
  Step-closed (give_back s l h) v k = ground (arith, v.when_closed)
  Step-closed (discard s l h) v k = ground (arith, v.when_closed)
  Step-closed (purge h) v k = ground (arith, v.when_closed)
  Step-closed (shut h) v k = ground (arith, v.when_closed)

  Step-opened : Step p q → q.closed ≡ false → p.closed ≡ false
  unfolding acquire open_failed open_returned release drop purge_idle close
  Step-opened (reuse deadline now s b e h) k = ground arith
  Step-opened (create deadline now b e h) k = ground arith
  Step-opened (refuse deadline now l h) k = ground arith
  Step-opened (fail_open l h) k = ground arith
  Step-opened (finish_open s l f g h) k = ground arith
  Step-opened (give_back s l h) k = ground arith
  Step-opened (discard s l h) k = ground arith
  Step-opened (purge h) k = ground arith
  Step-opened (shut h) k = ground arith

  Step-sized :
      Step p q → p.closed ≡ false → q.closed ≡ false → Open p → q.size ≡ length q.live + q.opening
  unfolding acquire open_failed open_returned release drop purge_idle close
  Step-sized (reuse deadline now s b e h) c k o = ground (arith, o.sized)
  Step-sized (create deadline now b e h) c k o = ground (arith, o.sized)
  Step-sized (refuse deadline now l h) c k o = ground (arith, o.sized)
  Step-sized (fail_open l h) c k o = ground (arith, o.sized)
  Step-sized (finish_open s l f g h) c k o = ground (arith, o.sized, length-append p.live (s ∷ []))
  Step-sized (give_back s l h) c k o = ground (arith, o.sized)
  Step-sized (discard s l h) c k o =
      ground (arith, o.sized, o.split s, length-remove_if_in s p.live)
  Step-sized (purge h) c k o =
      let kept = length-remove_all p.idle p.live (λ s. omega (arith, o.split s)) in
      ground (arith, o.sized, kept)
  Step-sized (shut h) c k o = ground arith

  Step-split :
      Step p q
      → p.closed ≡ false
      → q.closed ≡ false
      → Open p
      → (s : ℕ) → (count s q.live ≡ count s q.idle + count s q.leased) × (count s q.live ≤ 1)
  unfolding acquire open_failed open_returned release drop purge_idle close count
  Step-split (reuse deadline now x b e h) c k o s =
      ground (arith, o.split s, o.distinct s, count-snoc s x b.idle, pop-snoc p.idle b.idle x)
  Step-split (create deadline now b e h) c k o s = ground (arith, o.split s, o.distinct s)
  Step-split (refuse deadline now l h) c k o s = ground (arith, o.split s, o.distinct s)
  Step-split (fail_open l h) c k o s = ground (arith, o.split s, o.distinct s)
  Step-split (finish_open x l f g h) c k o s =
      ground (arith, o.split s, o.distinct s, count-snoc s x p.live)
  Step-split (give_back x l h) c k o s =
      ground (arith, o.split s, o.distinct s, count-snoc s x p.idle, count-remove s x p.leased)
  Step-split (discard x l h) c k o s = ground (
    arith,
    o.split s,
    o.distinct s,
    count-remove_if_in s x p.live,
    count-remove_if_in s x p.idle,
    count-remove s x p.leased,
  )
  Step-split (purge h) c k o s =
      ground (arith, o.split s, o.distinct s, count-remove_all s p.idle p.live)
  Step-split (shut h) c k o s = ground arith

Step-Accounts : {p q : System} → Step p q → Accounts p → Accounts q
Step-Accounts {p = p} {q = q} st v = record {
  bounded = Step-bounded st v;
  while_open = λ k. still_open k (Step-opened st k);
  when_closed = Step-closed st v;
}
  where
    still_open : q.closed ≡ false → p.closed ≡ false → Open q
    still_open k c = record {
      sized = Step-sized st c k (v.while_open c);
      split = λ s. (Step-split st c k (v.while_open c) s).0;
      distinct = λ s. (Step-split st c k (v.while_open c) s).1;
    }

Reach-Accounts : {p q : System} → Accounts p → Reach p q → Accounts q
Reach-Accounts v here = v
Reach-Accounts v (next r st) = Step-Accounts st (Reach-Accounts v r)

-- Whatever tasks share a bucket that starts empty, at every moment at which it is not closed its live
-- sessions and those being opened are at most `max_size` together, no session is leased to two
-- callers, and no leased session is idle, provided that callers give back or drop only sessions that
-- they hold, once each, and the opener returns a new session.
pub Reach-capacity :
    (max_size : ℕ) (p : System)
    → Reach (start max_size) p
    → p.closed ≡ false
    → (length p.live + p.opening ≤ p.max_size) × ((s : ℕ) → count s p.idle + count s p.leased ≤ 1)
Reach-capacity max_size p r c =
    (omega (arith, v.bounded, o.sized), λ s. omega (arith, o.split s, o.distinct s))
  where
    v : Accounts p
    v = Reach-Accounts (start-Accounts max_size) r

    o : Open p
    o = v.while_open c

module _ (b : Bucket) (deadline : Option ℕ) (now : ℕ) (open_bucket : b.closed ≡ false) where
  acquire_idle : pop b.idle ≢ none → ¬ IsRefusal (acquire deadline now b).0
  unfolding acquire
  acquire_idle h r = ground arith

  acquire_slot : b.size < b.max_size → ¬ IsRefusal (acquire deadline now b).0
  unfolding acquire
  acquire_slot h r = ground arith

-- Once a session is given back or dropped by a caller that holds it, the next `acquire` on an
-- accounted open bucket finds an idle session or a free slot: whatever its deadline and the time, it
-- neither waits nor raises.
pub acquire-after_return :
    (p : System) (s now : ℕ) (deadline : Option ℕ)
    → Accounts p
    → p.closed ≡ false
    → 0 < count s p.leased
    → (¬ IsRefusal (acquire deadline now (release s p.bucket)).0)
      × (¬ IsRefusal (acquire deadline now (drop s p.bucket)).0)
unfolding release drop
acquire-after_return p s now deadline v c k = (
  acquire_idle (release s p.bucket) deadline now (ground arith)
      (λ e. pop-append-ne-none p.idle s (ground arith)),
  acquire_slot (drop s p.bucket) deadline now c (
      omega (
        arith,
        v.bounded,
        (v.while_open c).sized,
        (v.while_open c).split s,
        count-le-length s p.live,
      )),
)
