-- ===== src/Resilience/Retry/Laws.antt =====
-- How many attempts are made, and which of them decides the result.
use repo_agent.Prelude.{
  ℕ, zero, suc, ◌+◌, ◌≤◌, ◌<◌, ◌≡◌, refl, ◌⊎◌, inl, inr, Bool, true, false, Option, none, some,
  arith, leb, if◌then◌else◌, Option-cases, dec_lt,
}
use repo_agent.Prelude.Int.{ℤ, clamp}
use repo_agent.Resilience.Retry.{
  Attempt, finished, timed_out, caller_cancelled, torn_down, transient, fatal, Raised,
  timeout_error, connection_error, cancelled_error, other, Ended, value, raises, round,
  attempt_from, unassigned, await_with_timeout_retry, leaves, goes_on,
}

module _ {ℓ} {A E : Type ℓ} where
  -- What ends the call at once, and what an attempt that may be repeated raises if it is the last.
  abbrev pub final : Attempt A E → Option (Ended A E)
  final (finished a) = some (value a)
  final timed_out = none
  final caller_cancelled = some (raises cancelled_error)
  final torn_down = none
  final (transient e) = none
  final (fatal e) = some (raises (other e))

  abbrev pub raised_by : Attempt A E → Raised E
  raised_by (finished a) = unassigned
  raised_by timed_out = timeout_error
  raised_by caller_cancelled = cancelled_error
  raised_by torn_down = connection_error
  raised_by (transient e) = other e
  raised_by (fatal e) = other e

  -- The first final attempt among `suc left` attempts, or the last of them.
  unfoldable pub decide_from : (ℕ → Attempt A E) → ℕ → ℕ → Ended A E × ℕ
  decide_from factory zero attempt = elim (final (factory attempt)) [
    | some r ↦ (r, attempt + 1)
    | none ↦ (raises (raised_by (factory attempt)), attempt + 1)
  ]
  decide_from factory (suc left) attempt = elim (final (factory attempt)) [
    | some r ↦ (r, attempt + 1)
    | none ↦ decide_from factory left (attempt + 1)
  ]

  round-final :
      (last : Bool) (t : Attempt A E)
      → round last t ≡ elim (final t) [
        | some r ↦ leaves r
        | none ↦ if last then leaves (raises (raised_by t)) else goes_on (raised_by t)
      ]
  unfolding round
  round-final true (finished a) = refl
  round-final true timed_out = refl
  round-final true caller_cancelled = refl
  round-final true torn_down = refl
  round-final true (transient e) = refl
  round-final true (fatal e) = refl
  round-final false (finished a) = refl
  round-final false timed_out = refl
  round-final false caller_cancelled = refl
  round-final false torn_down = refl
  round-final false (transient e) = refl
  round-final false (fatal e) = refl

  attempt_from-decides :
      (factory : ℕ → Attempt A E) (attempts left attempt : ℕ) (e : Option (Raised E))
      → attempt + suc left ≡ attempts
      → attempt_from factory attempts (suc left) attempt e ≡ decide_from factory left attempt
  unfolding attempt_from decide_from
  attempt_from-decides factory attempts zero attempt e h =
      ground (arith, round-final (leb attempts (attempt + 1)) (factory attempt))
  attempt_from-decides factory attempts (suc left) attempt e h = ground (
    arith,
    round-final (leb attempts (attempt + 1)) (factory attempt),
    attempt_from-decides factory attempts left (attempt + 1) (some (raised_by (factory attempt))),
  )

  -- Attempt `k` decides: it is final, or it is the last and raises.
  abbrev pub Decides : (ℕ → Attempt A E) → ℕ → ℕ → Ended A E → Type ℓ
  Decides factory last k r =
      (final (factory k) ≡ some r)
      ⊎ ((k ≡ last) × (final (factory k) ≡ none) × (r ≡ raises (raised_by (factory k))))

  abbrev pub Outcome : (ℕ → Attempt A E) → ℕ → ℕ → Ended A E × ℕ → Type ℓ
  Outcome factory first last (r, n) =
      (k : ℕ) × (n ≡ k + 1)
      × (first ≤ k)
      × (k ≤ last)
      × ((i : ℕ) → first ≤ i → i < k → final (factory i) ≡ none)
      × Decides factory last k r

  Outcome-earlier :
      (factory : ℕ → Attempt A E) (first last : ℕ) (r : Ended A E × ℕ)
      → final (factory first) ≡ none
      → Outcome factory (first + 1) last r
      → Outcome factory first last r
  Outcome-earlier factory first last r e (k, c, l, u, before, d) = (
    k,
    c,
    omega arith,
    u,
    λ i li ui. elim (dec_lt first i) [
      | yes p ↦ before i (omega arith) ui
      | no p ↦ let same : i ≡ first = omega arith in rw same e
    ],
    d,
  )

  decide_from-Outcome :
      (factory : ℕ → Attempt A E) (left first last : ℕ)
      → first + left ≡ last
      → Outcome factory first last (decide_from factory left first)
  unfolding decide_from
  decide_from-Outcome factory zero first last h = elim (Option-cases (final (factory first))) [
    | inl e ↦
        rw (e, decide_from)
          (
            first,
            refl,
            omega arith,
            omega arith,
            λ i li ui. absurd (omega arith),
            inr (omega arith, e, refl),
          )
    | inr (r, e) ↦
        rw (e, decide_from)
          (first, refl, omega arith, omega arith, λ i li ui. absurd (omega arith), inl e)
  ]
  decide_from-Outcome factory (suc left) first last h =
      elim (Option-cases (final (factory first))) [
        | inl e ↦
            rw (e, decide_from)
              (Outcome-earlier factory first last _ e
                (decide_from-Outcome factory left (first + 1) last (omega arith)))
        | inr (r, e) ↦
            rw (e, decide_from)
              (first, refl, omega arith, omega arith, λ i li ui. absurd (omega arith), inl e)
      ]

  -- The call makes k + 1 attempts for some k up to max(0, retry_count). No attempt before number k
  -- returned a result, was cancelled by the caller or raised an exception that is not transient.
  -- Attempt k did, and the call ends as it did; or k is max(0, retry_count), and the call raises the
  -- error of that attempt. So the loop never runs out without an error to raise.
  pub await-Outcome :
      (factory : ℕ → Attempt A E) (retry_count : ℤ)
      → Outcome factory 0 (clamp retry_count) (await_with_timeout_retry factory retry_count)
  unfolding await_with_timeout_retry
  await-Outcome factory retry_count =
      let n = clamp retry_count in
      let e : n + 1 ≡ suc n = omega arith in
      rw (e, attempt_from-decides factory (suc n) n 0 none (omega arith))
        (decide_from-Outcome factory n 0 n (omega arith))
