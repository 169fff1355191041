-- ===== src/Indexing/Run/Rows.antt =====
-- core/src/core/graph/upserts.py: what a look-up finds after the batches.
use repo_agent.Prelude.{
  ◌≡◌, refl, ap, inl, inr, true, none, some, List, [], ◌∷◌, arith, if◌then◌else◌, Bool-cases,
}
use repo_agent.Prelude.Words.{Text, same_text, mem_text, mem_same, same_text_sound, same_text_sym}
use repo_agent.Indexing.Dotted.{get}
use repo_agent.Indexing.Graph.{set, without_keys}

pub get-without_keys :
    (k : Text) (paths : List Text) (d : List (Text × Text))
    → get k (without_keys paths d) ≡ (if mem_text k paths then none else get k d)
unfolding get without_keys
get-without_keys k paths [] = ground arith
get-without_keys k paths ((j, v) ∷ d) = elim (Bool-cases (mem_text j paths)) [
  | inl h ↦ rw h (ground (arith, get-without_keys k paths d, mem_same j k paths))
  | inr h ↦ rw h (ground (arith, get-without_keys k paths d, mem_same j k paths))
]

same_text_trans : (i j k : Text) → same_text i j ≡ true → same_text i k ≡ same_text j k
same_text_trans i j k h = ap (λ x. same_text x k) (same_text_sound i j h)

pub get-set :
    (k j v : Text) (d : List (Text × Text))
    → get k (set j v d) ≡ (if same_text j k then some v else get k d)
unfolding get set
get-set k j v [] = refl
get-set k j v ((i, w) ∷ d) = elim (Bool-cases (same_text i j)) [
  | inl h ↦ rw h (ground (arith, get-set k j v d, same_text_trans i j k))
  | inr h ↦ rw h (
      ground (
        arith,
        get-set k j v d,
        same_text_sym i j,
        same_text_trans i k j,
        same_text_trans j k i,
        same_text_sym i k,
        same_text_sym j k,
      ))
]
