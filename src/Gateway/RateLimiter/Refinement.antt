-- ===== src/Gateway/RateLimiter/Refinement.antt =====
-- The limiter, which keeps one short queue for each key, answers as the ideal one does.
use repo_agent.Prelude.{
  ℕ, ◌+◌, ◌≤◌, ◌<◌, String, ◌≡◌, refl, inl, inr, true, false, List, [], ◌∷◌, ◌++◌, map, arith,
  eq_iff, ltb, Bool-cases, length, length-append,
}
use repo_agent.Prelude.Int.{ℤ, clamp}
use repo_agent.Prelude.Dict.{Dict, lookup, insert, lookup-insert}
use repo_agent.Gateway.RateLimiter.{Limiter, init, evict, bucket_of, allow, answers}
use repo_agent.Gateway.RateLimiter.Window.{
  granted, granted-ideal, within, within-le-cap, ideal, InOrder, recent, one_if,
}

evict-evict :
    (window t u : ℕ) (b : List ℕ) → t ≤ u → evict window u (evict window t b) ≡ evict window u b
unfolding evict
evict-evict window t u [] h = refl
evict-evict window t u (a ∷ b) h = ground (arith, evict-evict window t u b h)

abbrev AtMost : ℕ → List ℕ → Type 0
AtMost t [] = Unit
AtMost t (a ∷ b) = (a ≤ t) × AtMost t b

AtMost-mono : (t u : ℕ) (b : List ℕ) → AtMost t b → t ≤ u → AtMost u b
AtMost-mono t u [] h k = tt
AtMost-mono t u (a ∷ b) h k = (omega arith, AtMost-mono t u b h.1 k)

AtMost-evict : (window now t : ℕ) (b : List ℕ) → AtMost t b → AtMost t (evict window now b)
unfolding evict
AtMost-evict window now t [] h = tt
AtMost-evict window now t (a ∷ b) h = ground (arith, AtMost-evict window now t b)

AtMost-snoc : (t : ℕ) (b : List ℕ) → AtMost t b → AtMost t (b ++ t ∷ [])
AtMost-snoc t [] h = (omega arith, tt)
AtMost-snoc t (a ∷ b) h = (h.0, AtMost-snoc t b h.1)

evict-snoc :
    (window t u : ℕ) (b : List ℕ)
    → AtMost t b
    → length (evict window u (b ++ t ∷ []))
      ≡ length (evict window u b) + one_if (ltb u (t + window))
unfolding evict
evict-snoc window t u [] h = ground arith
evict-snoc window t u (a ∷ b) h =
    ground (arith, evict-snoc window t u b h.1, length-append b (t ∷ []))

-- The queue of each key has as many entries, once it is trimmed, as its window has allowed requests.
record Tracks (window now : ℕ) (hits : Dict (List ℕ)) (log : List (String × ℕ)) : Type 0 where
  counts :
      (key : String) (t : ℕ)
      → now ≤ t
      → recent window key t log ≡ length (evict window t (bucket_of (lookup key hits)))
  past : (key : String) → AtMost now (bucket_of (lookup key hits))

module _ (window now t : ℕ) (key : String) (hits : Dict (List ℕ)) (log : List (String × ℕ))
    (v : Tracks window now hits log) (later : now ≤ t) where
  trimmed : List ℕ
  trimmed = evict window t (bucket_of (lookup key hits))

  trimmed-past : AtMost t trimmed
  unfolding trimmed
  trimmed-past = AtMost-evict window t t _ (AtMost-mono now t _ (v.past key) later)

  Tracks-refused : Tracks window t (insert key trimmed hits) log
  unfolding trimmed
  Tracks-refused = record {
    counts = λ j u h. ground (
      arith,
      v.counts j u,
      lookup-insert key j trimmed hits,
      eq_iff key j,
      evict-evict window t u (bucket_of (lookup key hits)),
    );
    past = λ j.
        ground
          (arith, trimmed-past, lookup-insert key j trimmed hits, AtMost-mono now t _ (v.past j));
  }

  Tracks-accepted : Tracks window t (insert key (trimmed ++ t ∷ []) hits) ((key, t) ∷ log)
  unfolding trimmed recent
  Tracks-accepted = record {
    counts = λ j u h. ground (
      arith,
      v.counts j u,
      lookup-insert key j (trimmed ++ t ∷ []) hits,
      eq_iff key j,
      evict-evict window t u (bucket_of (lookup key hits)),
      evict-snoc window t u trimmed trimmed-past,
    );
    past = λ j. ground (
      arith,
      AtMost-snoc t trimmed trimmed-past,
      lookup-insert key j (trimmed ++ t ∷ []) hits,
      AtMost-mono now t _ (v.past j),
    );
  }

module _ (l : Limiter) (now t : ℕ) (key : String) (log : List (String × ℕ))
    (positive : 0 < clamp l.max_requests) (v : Tracks l.window now l.hits log)
    (later : now ≤ t) where
  queue : List ℕ
  queue = trimmed l.window now t key l.hits log v later

  allow-accepted :
      ltb (recent l.window key t log) (clamp l.max_requests) ≡ true
      → allow key t l ≡ (true, record l { hits = insert key (queue ++ t ∷ []) l.hits })
  unfolding allow queue trimmed
  allow-accepted h = ground (arith, v.counts key t later)

  allow-refused :
      ltb (recent l.window key t log) (clamp l.max_requests) ≡ false
      → allow key t l ≡ (false, record l { hits = insert key queue l.hits })
  unfolding allow queue trimmed
  allow-refused h = ground (arith, v.counts key t later)

answers-ideal :
    (l : Limiter) (now : ℕ) (requests log : List (String × ℕ))
    → 0 < clamp l.max_requests
    → InOrder now requests
    → Tracks l.window now l.hits log
    → answers requests l ≡ ideal (clamp l.max_requests) l.window requests log
unfolding answers ideal queue
answers-ideal l now [] log c o v = refl
answers-ideal l now ((key, t) ∷ requests) log c o v =
    elim (Bool-cases (ltb (recent l.window key t log) (clamp l.max_requests))) [
      | inl ok ↦ ground (
        arith,
        allow-accepted l now t key log c v o.0 ok,
        answers-ideal
            (record l { hits = insert key (queue l now t key log c v o.0 ++ t ∷ []) l.hits }) t
            requests ((key, t) ∷ log) c o.1 (Tracks-accepted l.window now t key l.hits log v o.0),
      )
      | inr full ↦ ground (
        arith,
        allow-refused l now t key log c v o.0 full,
        answers-ideal (record l { hits = insert key (queue l now t key log c v o.0) l.hits }) t
            requests log c o.1 (Tracks-refused l.window now t key l.hits log v o.0),
      )
    ]

-- For a positive cap, and requests with times that do not decrease, a new limiter gives the same
-- answers as the ideal limiter: it allows a request exactly when fewer than `max_requests` of the
-- requests of that key that it allowed before have a time later than `now - window`.
pub answers-refine :
    (max_requests : ℤ) (window : ℕ) (requests : List (String × ℕ))
    → 0 < clamp max_requests
    → InOrder 0 requests
    → answers requests (init max_requests window) ≡ ideal (clamp max_requests) window requests []
unfolding recent lookup evict
answers-refine max_requests window requests c o =
    answers-ideal (init max_requests window) 0 requests [] c o
      (record { counts = λ key t h. refl; past = λ key. tt })

-- For a positive cap and requests with times that do not decrease, of the requests of one key that a
-- new limiter allows at most `max_requests` have times t with lo < t <= lo + window, for every `lo`.
pub within-answers :
    (max_requests : ℤ) (window lo : ℕ) (key : String) (requests : List (String × ℕ))
    → 0 < clamp max_requests
    → InOrder 0 requests
    → within window key lo (granted requests (answers requests (init max_requests window)) [])
      ≤ clamp max_requests
within-answers max_requests window lo key requests c o =
    rw
      (
        answers-refine max_requests window requests c o,
        granted-ideal (clamp max_requests) window requests [],
      )
      (within-le-cap (clamp max_requests) window key requests lo)

-- With a cap of zero or less every request is allowed.
pub answers-unlimited :
    (l : Limiter) (requests : List (String × ℕ))
    → clamp l.max_requests ≡ 0
    → answers requests l ≡ map (λ r. true) requests
unfolding answers
answers-unlimited l [] h = refl
answers-unlimited l ((key, t) ∷ requests) h = ground (arith, answers-unlimited l requests h)
