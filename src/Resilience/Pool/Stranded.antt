-- ===== src/Resilience/Pool/Stranded.antt =====
-- core/src/core/resilience/session_pool.py: the slots that a call does not give back.
use repo_agent.Prelude.{
  ℕ, zero, suc, ◌+◌, ◌≤◌, ◌<◌, ◌≡◌, refl, sym, ap, ◌∙◌, subst, inl, inr, Bool, true, false, Option,
  none, some, List, [], ◌∷◌, ◌++◌, arith, ltb, if◌then◌else◌, lt→ltb, length, length-append, dec_lt,
}
use repo_agent.Prelude.Int.{ℤ, clamp}
use repo_agent.Resilience.Bucket.{
  Bucket, created, acquire, acquire_idle, pop, open_returned, open_failed, release,
}
use repo_agent.Resilience.Bucket.Counts.{pop-snoc}
use repo_agent.Resilience.Retry.{
  Attempt, Ended, finished, timed_out, value, await_with_timeout_retry,
}
use repo_agent.Resilience.Retry.Laws.{final, Outcome, Decides, await-Outcome}
use repo_agent.Resilience.Pool.{
  Opening, hangs, answers, Script, Pool, Got, got, refused, waiting, torn_opening, stopped, opens,
  fails, stalls, tears, is_cancelled, got_opened, after_pass, acquire_session, track, hand_back,
  first_session, first_try, call_with_session, pool_before, attempt_end, settle, call,
}

-- From b to c the sessions that are out, which are those of the size that are not idle, are n more.
unfoldable pub IsShort : ℕ → Bucket → Bucket → Type 0
IsShort n b c =
    (c.size + length b.idle ≡ b.size + length c.idle + n)
    × (c.size ≤ b.size + n)
    × (c.max_size ≡ b.max_size)
    × (c.closed ≡ b.closed)

-- The opener returns a session if it is asked.
unfoldable pub Opens : Opening → Type 0
Opens o = (s : ℕ) × (o.opened ≡ opens s)

GetsOne : Opening → Bucket → Got × Bucket → Type 0
GetsOne o b r = (s : ℕ) × (reused : Bool) × (c : Bucket) × (r ≡ (got s reused, c)) × IsShort 1 b c

if_on : {A : Type 0} → (x : Bool) (u v : A) → x ≡ true → (if x then u else v) ≡ u
if_on true u v h = refl
if_on false u v h = absurd (ground arith)

if_off : {A : Type 0} → (x : Bool) (u v : A) → x ≡ false → (if x then u else v) ≡ v
if_off true u v h = absurd (ground arith)
if_off false u v h = refl

after_created :
    (o : Opening) (s : ℕ) (c : Bucket)
    → o.opened ≡ opens s
    → c.closed ≡ false
    → after_pass o (created, c) ≡ (got s false, record c { live = c.live ++ s ∷ [] })
unfolding after_pass got_opened open_returned
after_created o s c e k =
    ap
      (λ x. elim x as (λ _. Got × Bucket) [
        | opens t ↦ got_opened t (open_returned t c)
        | fails f ↦ (refused f, open_failed c)
        | stalls ↦ (waiting, c)
        | tears ↦ (torn_opening, c)
        | is_cancelled ↦ (stopped, c)
      ])
      e
    ∙ ap (got_opened s) (if_off c.closed _ _ k)

idle_cases :
    (o : Opening) (b : Bucket) (p : Option (ℕ × List ℕ))
    → pop b.idle ≡ p
    → Opens o
    → b.closed ≡ false
    → b.size < b.max_size
    → GetsOne o b (after_pass o (acquire_idle p o.deadline o.now b))
unfolding GetsOne IsShort Opens after_pass acquire_idle got_opened open_returned
idle_cases o b (some (s, rest)) e asked k h =
    let l = ap length (pop-snoc b.idle rest s e) ∙ length-append rest (s ∷ []) in
    (s, true, record b { idle = rest }, refl, (omega arith, omega arith, refl, refl))
idle_cases o b none e (s, asked) k h =
    let c : Bucket = record b { size = b.size + 1 } in
    subst (λ z. GetsOne o b (after_pass o z))
      (sym (if_on (ltb b.size b.max_size) _ _ (lt→ltb b.size b.max_size h)))
      (
        s,
        false,
        record c { live = c.live ++ s ∷ [] },
        after_created o s c asked k,
        (omega arith, omega arith, refl, refl),
      )

acquire_session-GetsOne :
    (o : Opening) (b : Bucket)
    → Opens o
    → b.closed ≡ false
    → b.size < b.max_size
    → GetsOne o b (acquire_session o b)
unfolding acquire_session acquire GetsOne
acquire_session-GetsOne o b asked k h =
    subst (λ z. GetsOne o b (after_pass o z)) (sym (if_off b.closed _ _ k))
      (idle_cases o b (pop b.idle) refl asked k h)

-- An attempt that hangs keeps its session; one that gets its answer gives it back.
IsShort-trans : (m n : ℕ) (a b c : Bucket) → IsShort m a b → IsShort n b c → IsShort (m + n) a c
unfolding IsShort
IsShort-trans m n a b c (p, q, r, s) (t, u, v, w) = (omega arith, omega arith, v ∙ r, w ∙ s)

IsSettled : Bucket → Bucket → Type 0
IsSettled b c = c.size + length b.idle ≡ b.size + length c.idle

IsSettled-release :
    (s : ℕ) (b c : Bucket) → b.closed ≡ false → IsShort 1 b c → IsSettled b (release s c)
unfolding release IsShort IsSettled
IsSettled-release s b c k (p, q, r, t) =
    let l = length-append c.idle (s ∷ []) in
    subst (IsSettled b) (sym (if_off c.closed c (record c { idle = c.idle ++ s ∷ [] }) (t ∙ k)))
      (omega arith)

module _ {A : Type 0} where
  hanging :
      (r : Script A) (p : Pool)
      → r.invoked ≡ hangs
      → Opens r.first
      → p.bucket.closed ≡ false
      → p.bucket.size < p.bucket.max_size
      → ((call_with_session r p).0 ≡ timed_out)
        × IsShort 1 p.bucket (call_with_session r p).1.bucket
  unfolding call_with_session GetsOne first_try first_session track
  hanging r p e o k h =
      let (s, reused, c, g, short) = acquire_session-GetsOne r.first p.bucket o k h in
      subst (λ z. ((first_try r z p).0 ≡ timed_out) × IsShort 1 p.bucket (first_try r z p).1.bucket)
        (sym g)
        (subst
          (λ i.
            ((first_session r s reused i (track s c p)).0 ≡ timed_out)
            × IsShort 1 p.bucket (first_session r s reused i (track s c p)).1.bucket)
          (sym e) (refl, short))

  answering :
      (r : Script A) (a : A) (p : Pool)
      → r.invoked ≡ answers a
      → Opens r.first
      → p.bucket.closed ≡ false
      → p.bucket.size < p.bucket.max_size
      → ((call_with_session r p).0 ≡ finished a)
        × IsSettled p.bucket (call_with_session r p).1.bucket
  unfolding call_with_session GetsOne first_try first_session track hand_back
  answering r a p e o k h =
      let (s, reused, c, g, short) = acquire_session-GetsOne r.first p.bucket o k h in
      subst
        (λ z. ((first_try r z p).0 ≡ finished a) × IsSettled p.bucket (first_try r z p).1.bucket)
        (sym g)
        (subst
          (λ i.
            ((first_session r s reused i (track s c p)).0 ≡ finished a)
            × IsSettled p.bucket (first_session r s reused i (track s c p)).1.bucket)
          (sym e) (refl, IsSettled-release s p.bucket c k short))

-- The first n attempts hang, and the next gets its answer.
pub record AnswersAt {A : Type 0} (scripts : ℕ → Script A) (n : ℕ) (a : A) : Type 0 where
  pub opens : (i : ℕ) → i ≤ n → Opens (scripts i).first
  pub hanging_before : (i : ℕ) → i < n → (scripts i).invoked ≡ hangs
  pub answered : (scripts n).invoked ≡ answers a

module _ {A : Type 0} (scripts : ℕ → Script A) (n : ℕ) (a : A) (b : Bucket)
    (w : AnswersAt scripts n a) (k : b.closed ≡ false) (h : b.size + n < b.max_size) where
  start_pool : Pool
  start_pool = record { bucket = b; in_flight = [] }

  pool_before-IsShort : (i : ℕ) → i ≤ n → IsShort i b (pool_before scripts start_pool i).bucket
  unfolding pool_before IsShort start_pool
  pool_before-IsShort zero l = (omega arith, omega arith, refl, refl)
  pool_before-IsShort (suc i) l =
      let before = pool_before scripts start_pool i in
      let after = (call_with_session (scripts i) before).1 in
      let (p, q, r, s) = pool_before-IsShort i (omega arith) in
      let (t, u) =
        hanging (scripts i) before (w.hanging_before i (omega arith)) (w.opens i (omega arith))
          (s ∙ k) (omega arith) in
      subst (λ j. IsShort j b after.bucket) (omega arith)
        (IsShort-trans i 1 b before.bucket after.bucket (p, q, r, s) u)

  ends_hanging : (i : ℕ) → i < n → attempt_end scripts start_pool i ≡ timed_out
  unfolding attempt_end IsShort start_pool
  ends_hanging i l =
      let (p, q, r, s) = pool_before-IsShort i (omega arith) in
      (hanging (scripts i) (pool_before scripts start_pool i) (w.hanging_before i l)
        (w.opens i (omega arith)) (s ∙ k) (omega arith)).0

  answers_last :
      (attempt_end scripts start_pool n ≡ finished a)
      × (let c = (pool_before scripts start_pool (suc n)).bucket in
          c.size + length b.idle ≡ b.size + length c.idle + n)
  unfolding attempt_end pool_before IsShort IsSettled start_pool
  answers_last =
      let (p, q, r, s) = pool_before-IsShort n (omega arith) in
      let (e, t) =
        answering (scripts n) a (pool_before scripts start_pool n) w.answered
          (w.opens n (omega arith)) (s ∙ k) (omega arith) in
      (e, omega arith)

not_absent : {A : Type 0} → (x : A) → none ≡ some x → ⊥
not_absent x e = ground arith

value_or : {A E : Type 0} → Ended A E → Option (Ended A E) → Ended A E
value_or d none = d
value_or d (some r) = r

not_yet :
    {A E : Type 0}
    → (factory : ℕ → Attempt A E) (k last : ℕ) (r : Ended A E) → factory k ≡ timed_out
    → k < last
    → Decides factory last k r
    → ⊥
not_yet factory k last r e l (inl f) = not_absent r (sym (ap final e) ∙ f)
not_yet factory k last r e l (inr (same, f, g)) = absurd (omega arith)

first_final :
    {A E : Type 0}
    → (factory : ℕ → Attempt A E) (k last : ℕ) (a : A) (r : Ended A E) → factory k ≡ finished a
    → Decides factory last k r
    → r ≡ value a
unfolding value_or
first_final factory k last a r e (inl f) = ap (value_or r) (sym f ∙ ap final e)
first_final factory k last a r e (inr (same, f, g)) =
    absurd (not_absent (value a) (sym f ∙ ap final e))

-- The attempt that decides is the first that is final.
decided :
    {A E : Type 0}
    → (factory : ℕ → Attempt A E) (n last : ℕ) (a : A) (r : Ended A E) (m : ℕ) → n ≤ last
    → ((i : ℕ) → i < n → factory i ≡ timed_out)
    → factory n ≡ finished a
    → Outcome factory 0 last (r, m)
    → (r ≡ value a) × (m ≡ n + 1)
decided factory n last a r m l before at (k, c, lo, u, open_before, d) = elim (dec_lt k n) [
  | yes p ↦ absurd (not_yet factory k last r (before k p) (omega arith) d)
  | no p ↦ elim (dec_lt n k) [
    | yes q ↦ absurd (not_absent _ (sym (open_before n (omega arith) q) ∙ ap final at))
    | no q ↦
        let same : k ≡ n = omega arith in
        (first_final factory k last a r (ap factory same ∙ at) d, c ∙ ap (λ x. x + 1) same)
  ]
]

-- When the first n attempts of a call hang, n at most max(0, retry_count), the next gets its answer,
-- and the bucket is open and has room for n + 1 new sessions, then the call returns the answer, but of
-- the bucket's size n more are not idle after the call than before it.
pub call-strands :
    {A : Type 0}
    → (scripts : ℕ → Script A) (n : ℕ) (a : A) (retry_count : ℤ) (b : Bucket)
    → AnswersAt scripts n a
    → n ≤ clamp retry_count
    → b.closed ≡ false
    → b.size + n < b.max_size
    → let (r, c) = call scripts retry_count b in
      (r ≡ value a) × (c.size + length b.idle ≡ b.size + length c.idle + n)
unfolding call settle start_pool
call-strands scripts n a retry_count b w l k h =
    let factory = attempt_end scripts (start_pool scripts n a b w k h) in
    let p = await_with_timeout_retry factory retry_count in
    let (e, t) = answers_last scripts n a b w k h in
    let (f, g) =
      decided factory n (clamp retry_count) a p.0 p.1 l (ends_hanging scripts n a b w k h) e
        (await-Outcome factory retry_count) in
    let q = pool_before scripts (start_pool scripts n a b w k h) in
    let m : suc n ≡ p.1 = omega arith in
    (
      f,
      subst
          (λ r.
            (settle r (q p.1)).size + length b.idle ≡ b.size + length (settle r (q p.1)).idle + n)
          (sym f)
          (subst (λ i. (q i).bucket.size + length b.idle ≡ b.size + length (q i).bucket.idle + n) m
            t),
    )
