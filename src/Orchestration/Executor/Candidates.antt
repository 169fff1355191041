-- ===== src/Orchestration/Executor/Candidates.antt =====
-- core/src/core/orchestration/executor.py: the hits of a find_entity result, and which of them are
-- analysed. str() of a JSON value and float() of a score are arguments.
pub mod Selected
use repo_agent.Prelude.{
  ℕ, zero, suc, min, String, Bool, true, false, not, ◌||◌, List, [], ◌∷◌, str_eq, ltb,
  if◌then◌else◌,
}
use repo_agent.Prelude.Int.{ℤ}
use repo_agent.Prelude.Json.{
  Json, str, array, object, Items, nil, cons, Fields, end, field, truthy, get_field,
}
use repo_agent.Prelude.Text.{codes}
use repo_agent.Prelude.Words.{Text, same_text, mem_text, is_text}
use repo_agent.Prelude.Sort.{sort}
use repo_agent.Querying.Ranking.{
  SortKey, sort_key, key_le, source_priority, package_local_priority, path_name_affinity,
}

-- dumped.pop("usage", None)
unfoldable pub without_usage : Fields → Fields
without_usage end = end
without_usage (field k v fs) =
    let rest = without_usage fs in if str_eq k "usage" then rest else field k v rest

unfoldable pub jsonish : Json → Json
unfolding without_usage
jsonish (object fs) = object (without_usage fs)
jsonish v = v

-- The first value under these keys that is true, or "".
unfoldable pub first_true : List String → Fields → Json
unfolding truthy get_field
first_true [] fs = str []
first_true (k ∷ ks) fs = if truthy (get_field k fs) then get_field k fs else first_true ks fs

-- The dicts of a list, without their usage.
unfoldable pub dict_items : Items → List Fields
unfolding without_usage
dict_items nil = []
dict_items (cons (object fs) vs) = without_usage fs ∷ dict_items vs
dict_items (cons v vs) = dict_items vs

itself_if_hit : Fields → List Fields
unfolding truthy first_true
itself_if_hit fs =
    if truthy (first_true ("file_path" ∷ "filePath" ∷ "qualified_name" ∷ "name" ∷ []) fs)
    then fs ∷ []
    else []

hits_among : Json → Fields → List Fields
unfolding dict_items itself_if_hit
hits_among (array (cons v vs)) fs = dict_items (cons v vs)
hits_among v fs = itself_if_hit fs

unfoldable pub entity_hits : Json → List Fields
unfolding hits_among without_usage get_field
entity_hits (object fs) = hits_among (get_field "matches" (without_usage fs)) (without_usage fs)
entity_hits v = []

unfoldable pub primary_hit : Json → Fields
unfolding entity_hits
primary_hit v = elim (entity_hits v) [ [] ↦ end | ◌∷◌ hit hits ↦ hit ]

-- The limit of the first round, and of the rounds behind.
unfoldable pub candidate_limit : ℕ → ℕ
candidate_limit iteration = if ltb 1 iteration then min 2 3 else 3

-- _TIER_RANK.get(tier, 9)
unfoldable pub rank_of : Text → ℕ
unfolding same_text
rank_of tier =
    if same_text tier (codes "exact")
    then 0
    else if same_text tier (codes "fulltext")
    then 1
    else if same_text tier (codes "lexical")
    then 2
    else 9

module _ (str_of : Json → Text) where
  unfoldable pub hit_identity : Fields → Text
  unfolding first_true
  hit_identity hit =
      str_of (first_true ("qualified_name" ∷ "file_path" ∷ "filePath" ∷ "name" ∷ "path" ∷ []) hit)

  unfoldable pub resolved_name : Text → Fields → Text
  unfolding first_true truthy
  resolved_name entity hit =
      if truthy (first_true ("qualified_name" ∷ "name" ∷ []) hit)
      then str_of (first_true ("qualified_name" ∷ "name" ∷ []) hit)
      else entity

  unfoldable pub exact_hits : List Fields → List Fields
  unfolding first_true same_text
  exact_hits [] = []
  exact_hits (h ∷ hs) =
      let rest = exact_hits hs in
      if same_text (str_of (first_true ("tier" ∷ []) h)) (codes "exact") then h ∷ rest else rest

  -- exact if (prefer_exact and exact) else hits
  unfoldable pub pool_of : Bool → List Fields → List Fields → List Fields
  pool_of true (h ∷ exact) hits = h ∷ exact
  pool_of true [] hits = hits
  pool_of false exact hits = hits

  -- The first hits with a new identity that is not empty, up to the limit; `room` more may be taken.
  unfoldable pub pick : ℕ → List Text → List Fields → List Fields
  unfolding hit_identity is_text mem_text
  pick zero seen hits = []
  pick (suc room) seen [] = []
  pick (suc room) seen (h ∷ hs) =
      let skipping = pick (suc room) seen hs in
      let taking = pick room (hit_identity h ∷ seen) hs in
      if not (is_text (hit_identity h)) || mem_text (hit_identity h) seen
      then skipping
      else h ∷ taking

module _ (str_of : Json → Text) (score_of : Json → ℤ) where
  unfoldable pub candidate_key : Fields → SortKey
  unfolding first_true rank_of source_priority package_local_priority path_name_affinity get_field
  candidate_key hit =
      let path = str_of (first_true ("file_path" ∷ "filePath" ∷ []) hit) in
      sort_key
        (rank_of (str_of (first_true ("tier" ∷ []) hit))
          ∷ source_priority path
          ∷ package_local_priority (str_of (first_true ("qualified_name" ∷ []) hit)) path
          ∷ path_name_affinity (str_of (first_true ("name" ∷ []) hit)) path
          ∷ [])
        (score_of (get_field "score" hit))

  -- `limit` is positive, as each of its callers has it.
  unfoldable pub select_analysis_candidates : Bool → ℕ → List Fields → List Fields
  unfolding pick sort key_le candidate_key pool_of exact_hits
  select_analysis_candidates prefer_exact limit hits = pick str_of limit [] (
      sort (λ a b. key_le (candidate_key a) (candidate_key b))
        (pool_of str_of prefer_exact (exact_hits str_of hits) hits))

-- The identities of the hits.
unfoldable pub identities : (Json → Text) → List Fields → List Text
unfolding hit_identity
identities str_of [] = []
identities str_of (h ∷ hs) = hit_identity str_of h ∷ identities str_of hs
