-- ===== src/Orchestration/Router/Names/Terms.antt =====
-- core/src/core/orchestration/router.py: what `retrieval_search_terms` returns.
use repo_agent.Prelude.{
  ◌≡◌, refl, ◌∙◌, ◌≢◌, Bool, true, false, List, [], ◌∷◌, ◌++◌, arith, if◌then◌else◌,
}
use repo_agent.Prelude.Words.{
  Text, strip, mem_text, dedupe, IsDistinct, add_new-IsDistinct, add_new-mem_text, same_text_refl,
}
use repo_agent.Orchestration.Router.Names.{
  not_blank, rule_based_entities, is_empty, search_terms, retrieval_search_terms,
}

dedupe-IsDistinct : (items : List Text) → IsDistinct (dedupe items)
unfolding dedupe IsDistinct
dedupe-IsDistinct items = add_new-IsDistinct [] items tt

dedupe-mem_text : (s : Text) (items : List Text) → mem_text s (dedupe items) ≡ mem_text s items
unfolding dedupe mem_text
dedupe-mem_text s items = add_new-mem_text s [] items

either-IsDistinct :
    (b : Bool) (ts us : List Text)
    → IsDistinct ts
    → IsDistinct us
    → IsDistinct (if b then ts else us)
either-IsDistinct true ts us p q = p
either-IsDistinct false ts us p q = q

search_terms-IsDistinct :
    (query stripped : Text) (ids : List Text)
    → IsDistinct ids
    → IsDistinct (search_terms query stripped ids)
unfolding search_terms
search_terms-IsDistinct query [] ids d = d
search_terms-IsDistinct query (c ∷ s) ids d =
    either-IsDistinct _ _ _ (dedupe-IsDistinct (ids ++ (c ∷ s) ∷ [])) d

mem_last : (t : Text) (ids : List Text) → mem_text t (ids ++ t ∷ []) ≡ true
unfolding mem_text
mem_last t [] = ground (arith, same_text_refl t)
mem_last t (u ∷ us) = ground (arith, mem_last t us)

search_terms-whole :
    (query stripped : Text) (ids : List Text)
    → is_empty ids ≡ true
    → stripped ≢ []
    → mem_text stripped (search_terms query stripped ids) ≡ true
unfolding search_terms
search_terms-whole query [] ids e some_text = absurd (some_text refl)
search_terms-whole query (c ∷ s) ids e some_text =
    rw (e, search_terms) (dedupe-mem_text (c ∷ s) (ids ++ (c ∷ s) ∷ []) ∙ mem_last (c ∷ s) ids)

-- A query that is not blank and names no identifier is itself one of the terms to search for.
pub retrieval_search_terms-whole :
    (query : Text) (entities : List Text)
    → is_empty (dedupe (not_blank entities ++ rule_based_entities query)) ≡ true
    → strip query ≢ []
    → mem_text (strip query) (retrieval_search_terms query entities) ≡ true
unfolding retrieval_search_terms
retrieval_search_terms-whole query entities =
    search_terms-whole query (strip query)
      (dedupe (not_blank entities ++ rule_based_entities query))

-- The terms to search for stand once each.
pub retrieval_search_terms-IsDistinct :
    (query : Text) (entities : List Text) → IsDistinct (retrieval_search_terms query entities)
unfolding retrieval_search_terms
retrieval_search_terms-IsDistinct query entities =
    let ids = dedupe (not_blank entities ++ rule_based_entities query) in
    search_terms-IsDistinct query (strip query) ids
      (dedupe-IsDistinct (not_blank entities ++ rule_based_entities query))
