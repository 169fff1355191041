-- ===== src/Orchestration/Executor/Candidates/Selected.antt =====
-- The candidates that are selected: different, and at most as many as the limit.
use repo_agent.Prelude.{
  ℕ, zero, suc, ◌≤◌, ◌≡◌, refl, Bool, true, false, not, ◌||◌, List, [], ◌∷◌, arith, if◌then◌else◌,
  length,
}
use repo_agent.Prelude.Int.{ℤ}
use repo_agent.Prelude.Json.{Json, Fields}
use repo_agent.Prelude.Words.{Text, same_text_sym, mem_text, IsDistinct, is_text}
use repo_agent.Prelude.Sort.{sort}
use repo_agent.Querying.Ranking.{key_le}
use repo_agent.Orchestration.Executor.Candidates.{
  hit_identity, identities, pick, pool_of, exact_hits, candidate_key, select_analysis_candidates,
}

-- Nothing of the list was seen, and nothing stands twice.
AreNew : List Text → List Text → Type 0
unfolding mem_text
AreNew seen [] = Unit
AreNew seen (t ∷ ts) = (mem_text t seen ≡ false) × (mem_text t ts ≡ false) × AreNew seen ts

AreNew-weaken :
    (s : Text) (seen ts : List Text)
    → AreNew (s ∷ seen) ts
    → (mem_text s ts ≡ false) × AreNew seen ts
unfolding AreNew mem_text
AreNew-weaken s seen [] h = (refl, tt)
AreNew-weaken s seen (t ∷ ts) (n, d, rest) =
    let (absent, weaker) = AreNew-weaken s seen ts rest in
    (ground (arith, n, same_text_sym s t, absent), (ground (arith, n), d, weaker))

AreNew-IsDistinct : (seen ts : List Text) → AreNew seen ts → IsDistinct ts
unfolding AreNew IsDistinct
AreNew-IsDistinct seen [] h = tt
AreNew-IsDistinct seen (t ∷ ts) (n, d, rest) = (d, AreNew-IsDistinct seen ts rest)

module _ (str_of : Json → Text) where
  AreNew-taken :
      (b : Bool) (seen : List Text) (h : Fields) (skipping taking : List Fields)
      → (not (is_text (hit_identity str_of h)) || mem_text (hit_identity str_of h) seen) ≡ b
      → AreNew seen (identities str_of skipping)
      → AreNew (hit_identity str_of h ∷ seen) (identities str_of taking)
      → AreNew seen (identities str_of (if b then skipping else h ∷ taking))
  unfolding AreNew identities
  AreNew-taken true seen h skipping taking e k n = k
  AreNew-taken false seen h skipping taking e k n =
      let (absent, weaker) =
        AreNew-weaken (hit_identity str_of h) seen (identities str_of taking) n in
      (ground (arith, e), absent, weaker)

  pick-AreNew :
      (room : ℕ) (seen : List Text) (hits : List Fields)
      → AreNew seen (identities str_of (pick str_of room seen hits))
  unfolding pick AreNew identities
  pick-AreNew zero seen hits = tt
  pick-AreNew (suc room) seen [] = tt
  pick-AreNew (suc room) seen (h ∷ hs) =
      AreNew-taken (not (is_text (hit_identity str_of h)) || mem_text (hit_identity str_of h) seen)
        seen h (pick str_of (suc room) seen hs) (pick str_of room (hit_identity str_of h ∷ seen) hs)
        refl (pick-AreNew (suc room) seen hs) (pick-AreNew room (hit_identity str_of h ∷ seen) hs)

  length_if :
      (b : Bool) (room : ℕ) (h : Fields) (skipping taking : List Fields)
      → length skipping ≤ suc room
      → length taking ≤ room
      → length (if b then skipping else h ∷ taking) ≤ suc room
  length_if true room h skipping taking s t = s
  length_if false room h skipping taking s t = omega (arith, t)

  length-pick :
      (room : ℕ) (seen : List Text) (hits : List Fields)
      → length (pick str_of room seen hits) ≤ room
  unfolding pick
  length-pick zero seen hits = omega arith
  length-pick (suc room) seen [] = omega arith
  length-pick (suc room) seen (h ∷ hs) =
      length_if (not (is_text (hit_identity str_of h)) || mem_text (hit_identity str_of h) seen)
        room h _ _ (length-pick (suc room) seen hs)
        (length-pick room (hit_identity str_of h ∷ seen) hs)

  -- At most `limit` candidates are selected, and no two have the same identity.
  pub select_analysis_candidates-IsDistinct :
      (score_of : Json → ℤ) (prefer_exact : Bool) (limit : ℕ) (hits : List Fields)
      → let selected = select_analysis_candidates str_of score_of prefer_exact limit hits in
        (length selected ≤ limit) × IsDistinct (identities str_of selected)
  unfolding select_analysis_candidates
  select_analysis_candidates-IsDistinct score_of prefer_exact limit hits =
      let pool =
        sort (λ a b. key_le (candidate_key str_of score_of a) (candidate_key str_of score_of b))
          (pool_of str_of prefer_exact (exact_hits str_of hits) hits) in
      (
        length-pick limit [] pool,
        AreNew-IsDistinct [] (identities str_of (pick str_of limit [] pool))
            (pick-AreNew limit [] pool),
      )
