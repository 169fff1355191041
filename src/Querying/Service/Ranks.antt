-- ===== src/Querying/Service/Ranks.antt =====
-- What retrieve gives: hits with different keys, in the order of their rank.
use repo_agent.Prelude.{
  ℕ, ◌≡◌, refl, sym, ap, ◌∙◌, subst, Bool, true, false, not, ◌||◌, Option, none, some, List, [],
  ◌∷◌, ◌++◌, map, arith, if◌then◌else◌,
}
use repo_agent.Prelude.Words.{Text, mem_text, IsDistinct, IsDistinct-snoc, strip, is_text}
use repo_agent.Prelude.Sort.{is_sorted, sort-is_sorted, IsDistinct-sort}
use repo_agent.Querying.Ranking.{
  Tier, SortKey, sort_key, tuple_le, at_least, at_least-total, key_le, exact, fulltext,
  conceptual_entity_names,
}
use repo_agent.Querying.Lucene.{is_identifier, lucene_query}
use repo_agent.Querying.Hits.{EntityHit, hit_key, hit_sort_key, Ranked, merge_hit, merge_hits}
use repo_agent.Querying.Service.{QueryResult, execute, find_entity, ℤ}
use repo_agent.Querying.Service.Search.{
  Searcher, Vectors, hits_of, type_param, merged_rows, also_truncated, then_imported,
  merge_identifier_hits, merge_unless, merge_all, with_fulltext, fulltext_found, add_fulltext,
  embedding_search, add_vectors, no_hits, EntityQueryResult, matches, invalid_entity_type,
  lookup_failed, looked_up, gathered, hit_le, finished, retrieve_from, retrieve,
}
use repo_agent.Prelude.Json.{str, dict}

tuple_le-total :
    (xs ys : List ℕ) (a b : Bool) → (a || b) ≡ true → (tuple_le xs ys a || tuple_le ys xs b) ≡ true
unfolding tuple_le
tuple_le-total [] [] a b h = h
tuple_le-total [] (y ∷ ys) a b h = ground arith
tuple_le-total (x ∷ xs) [] a b h = refl
tuple_le-total (x ∷ xs) (y ∷ ys) a b h = ground (arith, tuple_le-total xs ys a b h)

key_le-total : (j k : SortKey) → (key_le j k || key_le k j) ≡ true
unfolding key_le
key_le-total (sort_key xs a) (sort_key ys b) =
    tuple_le-total xs ys (at_least a b) (at_least b a) (at_least-total a b)

-- The keys seen are those of the hits, and no two are the same.
IsKeyed : Ranked → Type 0
IsKeyed r = (r.seen ≡ map hit_key r.hits) × IsDistinct r.seen

map-snoc :
    (hits : List EntityHit) (h : EntityHit)
    → map hit_key (hits ++ h ∷ []) ≡ map hit_key hits ++ hit_key h ∷ []
map-snoc [] h = refl
map-snoc (x ∷ xs) h = ap (◌∷◌ (hit_key x)) (map-snoc xs h)

IsKeyed-if :
    (b : Bool) (r : Ranked) (h : EntityHit)
    → (not (is_text (hit_key h)) || mem_text (hit_key h) r.seen) ≡ b
    → IsKeyed r
    → IsKeyed (if b then r else record { hits = r.hits ++ h ∷ []; seen = r.seen ++ hit_key h ∷ [] })
unfolding IsKeyed
IsKeyed-if true r h e k = k
IsKeyed-if false r h e (same, distinct) = (
  ap (λ t. t ++ hit_key h ∷ []) same ∙ sym (map-snoc r.hits h),
  IsDistinct-snoc r.seen (hit_key h) distinct (ground (arith, e)),
)

merge_hit-IsKeyed : (h : EntityHit) (r : Ranked) → IsKeyed r → IsKeyed (merge_hit h r)
unfolding merge_hit
merge_hit-IsKeyed h r k =
    IsKeyed-if (not (is_text (hit_key h)) || mem_text (hit_key h) r.seen) r h refl k

merge_hits-IsKeyed : (hs : List EntityHit) (r : Ranked) → IsKeyed r → IsKeyed (merge_hits hs r)
unfolding merge_hits
merge_hits-IsKeyed [] r k = k
merge_hits-IsKeyed (h ∷ hs) r k = merge_hits-IsKeyed hs (merge_hit h r) (merge_hit-IsKeyed h r k)

-- The same of a state that may be an exception.
IsKeyedState : Option (Ranked × Bool) → Type 0
unfolding IsKeyed
IsKeyedState none = Unit
IsKeyedState (some (r, truncated)) = IsKeyed r

merged_rows-IsKeyed :
    (s : Searcher) (tier : Tier) (o : Option QueryResult) (r : Ranked)
    → IsKeyed r
    → IsKeyedState (merged_rows s tier o r)
unfolding merged_rows IsKeyedState
merged_rows-IsKeyed s tier none r k = tt
merged_rows-IsKeyed s tier (some found) r k = merge_hits-IsKeyed (hits_of s tier found.rows) r k

also_truncated-IsKeyed :
    (truncated : Bool) (o : Option (Ranked × Bool))
    → IsKeyedState o
    → IsKeyedState (also_truncated truncated o)
unfolding also_truncated IsKeyedState
also_truncated-IsKeyed truncated none k = tt
also_truncated-IsKeyed truncated (some (r, more)) k = k

either_state :
    (b : Bool) (o p : Option (Ranked × Bool))
    → IsKeyedState o
    → IsKeyedState p
    → IsKeyedState (if b then o else p)
either_state true o p h k = h
either_state false o p h k = k

module _ (s : Searcher) (kind : Option Text) where
  then_imported-IsKeyed :
      (name : Text) (o : Option (Ranked × Bool))
      → IsKeyedState o
      → IsKeyedState (then_imported s kind name o)
  unfolding then_imported IsKeyedState
  then_imported-IsKeyed name none k = tt
  then_imported-IsKeyed name (some (r, truncated)) k =
      either_state (is_identifier (strip name)) _ (some (r, truncated))
        (also_truncated-IsKeyed truncated _ (merged_rows-IsKeyed s exact _ r k)) k

  merge_unless-IsKeyed :
      (name : Text) (r : Ranked) (truncated : Bool)
      → IsKeyed r
      → IsKeyedState (merge_unless s kind name (r, truncated))
  unfolding merge_unless merge_identifier_hits IsKeyedState
  merge_unless-IsKeyed name r true k = k
  merge_unless-IsKeyed name r false k =
      then_imported-IsKeyed name _ (merged_rows-IsKeyed s exact _ r k)

  merge_all-IsKeyed :
      (names : List Text) (o : Option (Ranked × Bool))
      → IsKeyedState o
      → IsKeyedState (merge_all s kind names o)
  unfolding merge_all IsKeyedState
  merge_all-IsKeyed names none k = tt
  merge_all-IsKeyed [] (some (r, truncated)) k = k
  merge_all-IsKeyed (n ∷ ns) (some (r, truncated)) k =
      merge_all-IsKeyed ns (merge_unless s kind n (r, truncated))
        (merge_unless-IsKeyed n r truncated k)

-- The matches have different keys and stand in the order of their rank.
unfoldable pub IsRanked : EntityQueryResult → Type 0
IsRanked invalid_entity_type = Unit
IsRanked lookup_failed = Unit
IsRanked (matches hits truncated) = IsDistinct (map hit_key hits) × (is_sorted hit_le hits ≡ true)

with_fulltext-IsKeyed :
    (s : Searcher) (top_k : ℤ) (o : Option QueryResult) (r : Ranked) (truncated : Bool)
    → IsKeyed r
    → IsKeyed (with_fulltext s top_k o (r, truncated)).0
unfolding with_fulltext
with_fulltext-IsKeyed s top_k none r truncated k = k
with_fulltext-IsKeyed s top_k (some found) r truncated k =
    merge_hits-IsKeyed (hits_of s fulltext found.rows) r k

first_of_either :
    (b : Bool) (x y : Ranked × Bool) → IsKeyed x.0 → IsKeyed y.0 → IsKeyed (if b then x else y).0
first_of_either true x y h k = h
first_of_either false x y h k = k

either_ranked : (b : Bool) (x y : Ranked) → IsKeyed x → IsKeyed y → IsKeyed (if b then x else y)
either_ranked true x y h k = h
either_ranked false x y h k = k

module _ (s : Searcher) (v : Vectors) (kind : Option Text) (top_k : ℤ) (query : Text) where
  add_fulltext-IsKeyed :
      (lucene : Text) (r : Ranked) (truncated : Bool)
      → IsKeyed r
      → IsKeyed (add_fulltext s kind top_k lucene (r, truncated)).0
  unfolding add_fulltext
  add_fulltext-IsKeyed lucene r truncated k =
      first_of_either (is_text lucene)
        (with_fulltext s top_k (fulltext_found s kind top_k lucene) (r, truncated)) (r, truncated)
        (with_fulltext-IsKeyed s top_k (fulltext_found s kind top_k lucene) r truncated k) k

  add_vectors-IsKeyed :
      (state : Ranked × Bool) → IsKeyed state.0 → IsKeyed (add_vectors s v kind top_k query state).0
  unfolding add_vectors
  add_vectors-IsKeyed (r, truncated) k =
      either_ranked v.enabled _ r (merge_hits-IsKeyed (embedding_search s v kind top_k query) r k) k

  finished-IsRanked : (state : Ranked × Bool) → IsKeyed state.0 → IsRanked (finished state)
  unfolding finished IsRanked IsKeyed hit_le
  finished-IsRanked (r, truncated) (same, distinct) = (
    IsDistinct-sort hit_le hit_key r.hits (subst (λ z. IsDistinct z) same distinct),
    sort-is_sorted hit_le (λ a b. key_le-total (hit_sort_key a) (hit_sort_key b)) r.hits,
  )

  retrieve_from-IsRanked :
      (o : Option (Ranked × Bool))
      → IsKeyedState o
      → IsRanked (retrieve_from s v kind top_k query o)
  unfolding retrieve_from gathered IsKeyedState IsRanked
  retrieve_from-IsRanked none k = tt
  retrieve_from-IsRanked (some (r, truncated)) k =
      let state = add_fulltext s kind top_k (lucene_query query) (r, truncated) in
      finished-IsRanked (add_vectors s v kind top_k query state)
        (add_vectors-IsKeyed state (add_fulltext-IsKeyed (lucene_query query) r truncated k))

  looked_up-IsKeyed : IsKeyedState (looked_up s kind query)
  unfolding looked_up IsKeyedState IsKeyed IsDistinct
  looked_up-IsKeyed =
      merge_all-IsKeyed s kind (query ∷ conceptual_entity_names query) (some (no_hits, false))
        (refl, tt)

  valid_or :
      (b : Bool) (o : Option (Ranked × Bool))
      → IsKeyedState o
      → IsRanked (if b then retrieve_from s v kind top_k query o else invalid_entity_type)
  unfolding IsRanked
  valid_or true o k = retrieve_from-IsRanked o k
  valid_or false o k = tt

  -- Whatever the graph, the full-text index and the vectors answer: when retrieve gives matches, no two
  -- have the same key (the first of the qualified name, the file, the path and the name that is not
  -- empty), and they stand in the order of their tier, source, package, affinity to the name and score.
  pub retrieve-IsRanked : IsRanked (retrieve s v kind top_k query)
  unfolding retrieve
  retrieve-IsRanked = valid_or _ (looked_up s kind query) looked_up-IsKeyed

merge_all-truncated :
    (s : Searcher) (kind : Option Text) (names : List Text) (r : Ranked)
    → merge_all s kind names (some (r, true)) ≡ some (r, true)
unfolding merge_all merge_unless
merge_all-truncated s kind [] r = refl
merge_all-truncated s kind (n ∷ ns) r = merge_all-truncated s kind ns r

merge_all_if :
    (s : Searcher) (kind : Option Text) (names : List Text) (plain truncated : Bool)
    (o : Option (Ranked × Bool)) (r : Ranked)
    → plain ≡ false
    → truncated ≡ true
    → merge_all s kind names (if plain then o else some (r, truncated)) ≡ some (r, true)
merge_all_if s kind names true truncated o r i t = cc
merge_all_if s kind names false true o r i t = merge_all-truncated s kind names r
merge_all_if s kind names false false o r i t = cc

first_lookup :
    (s : Searcher) (kind : Option Text) (query : Text) (found : QueryResult) (names : List Text)
    → is_identifier (strip query) ≡ false
    → found.truncated ≡ true
    → merge_all s kind names (then_imported s kind query (merged_rows s exact (some found) no_hits))
      ≡ some (merge_hits (hits_of s exact found.rows) no_hits, true)
unfolding then_imported merged_rows
first_lookup s kind query found names i t =
    merge_all_if s kind names (is_identifier (strip query)) found.truncated _
      (merge_hits (hits_of s exact found.rows) no_hits) i t

-- When the exact lookup of a query that is no identifier is truncated, what is looked up by name is the
-- rows of that lookup only: none of the names that the question stands for is looked up, whatever they
-- are.
pub looked_up-skips_concepts :
    (s : Searcher) (kind : Option Text) (query : Text) (found : QueryResult)
    → execute s.client find_entity
        (dict (("name", str query) ∷ ("entity_type", type_param kind) ∷ []))
      ≡ some found
    → is_identifier (strip query) ≡ false
    → found.truncated ≡ true
    → looked_up s kind query ≡ some (merge_hits (hits_of s exact found.rows) no_hits, true)
unfolding looked_up merge_all merge_unless merge_identifier_hits
looked_up-skips_concepts s kind query found e i t =
    ap
      (λ o.
        merge_all s kind (conceptual_entity_names query)
          (then_imported s kind query (merged_rows s exact o no_hits)))
      e
    ∙ first_lookup s kind query found (conceptual_entity_names query) i t
