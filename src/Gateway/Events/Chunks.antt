-- ===== src/Gateway/Events/Chunks.antt =====
-- The chunks of a text: they join to it, and none is longer than the setting.
use repo_agent.Prelude.{
  ℕ, zero, suc, ◌≤◌, ◌≡◌, refl, sym, ap, ◌∙◌, ◌≢◌, inl, inr, List, [], ◌∷◌, ◌++◌, append_assoc,
  append-nil, arith, ◌==◌, Bool-cases, length, take, drop, take-append-drop, length-drop,
}
use repo_agent.Prelude.Int.{ℤ, clamp}
use repo_agent.Prelude.Words.{Text}
use repo_agent.Gateway.Events.{slices, or_empty_chunk, chunk_text}

-- "".join(chunks)
unfoldable pub joined : List Text → Text
joined [] = []
joined (t ∷ ts) = t ++ joined ts

pub joined-append : (ts us : List Text) → joined (ts ++ us) ≡ joined ts ++ joined us
unfolding joined
joined-append [] us = refl
joined-append (t ∷ ts) us =
    ap (◌++◌ t) (joined-append ts us) ∙ sym (append_assoc t (joined ts) (joined us))

joined-slices : (fuel n : ℕ) (s : Text) → length s ≤ fuel → joined (slices fuel (suc n) s) ≡ s
unfolding joined slices
joined-slices zero n [] h = refl
joined-slices zero n (c ∷ s) h = absurd (omega (arith, h))
joined-slices (suc fuel) n [] h = refl
joined-slices (suc fuel) n (c ∷ s) h =
    ap (λ t. (c ∷ take n s) ++ t)
      (joined-slices fuel n (drop n s) (omega (arith, length-drop n s, h)))
    ∙ ap (◌∷◌ c) (take-append-drop n s)

joined-or_empty_chunk : (ts : List Text) → joined (or_empty_chunk ts) ≡ joined ts
unfolding joined or_empty_chunk
joined-or_empty_chunk [] = refl
joined-or_empty_chunk (t ∷ ts) = refl

joined-sized : (n : ℕ) (s : Text) → n ≢ 0 → joined (or_empty_chunk (slices (length s) n s)) ≡ s
joined-sized zero s h = absurd (h refl)
joined-sized (suc n) s h =
    joined-or_empty_chunk (slices (length s) (suc n) s) ∙ joined-slices (length s) n s (omega arith)

-- The chunks of an answer join to the answer, whatever the size of a chunk is set to.
pub joined-chunk_text : (size : ℤ) (s : Text) → joined (chunk_text size s) ≡ s
unfolding joined chunk_text
joined-chunk_text size s = elim (Bool-cases (clamp size == 0)) [
  | inl h ↦ rw (h) (append-nil s)
  | inr h ↦ rw (h) (joined-sized (clamp size) s (ground (arith, h)))
]
