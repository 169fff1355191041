-- ===== src/Querying/Hits.antt =====
-- core/src/core/querying/service.py: the hits that are read from the rows of a query, and how they are
-- merged. str() and int() of a JSON value and float() of a score are arguments; a value that they
-- refuse is left out.
use repo_agent.Prelude.{not, ◌||◌, Option, none, some, List, [], ◌∷◌, ◌++◌, if◌then◌else◌}
use repo_agent.Prelude.Int.{ℤ}
use repo_agent.Prelude.Json.{Json, null, str, array, Items, nil, cons, Fields, truthy, get_field}
use repo_agent.Prelude.Text.{codes}
use repo_agent.Prelude.Words.{Text, same_text, mem_text, is_text}
use repo_agent.Querying.Ranking.{Tier, exact, fulltext, lexical, SortKey, retrieval_sort_key}

pub record EntityHit : Type 0 where
  pub entity_type : Text
  pub name : Text
  pub qualified_name : Text
  pub file_path : Text
  pub path : Option Text
  pub line_start : Option ℤ
  pub line_end : Option ℤ
  pub tier : Tier
  pub score : ℤ
  pub docstring_text : Option Text
  pub docstring_summary : Option Text

pub data Direction : Type 0 where
  outgoing : Direction
  incoming : Direction

pub record NeighborHit : Type 0 where
  pub entity_type : Text
  pub name : Text
  pub qualified_name : Text
  pub relationship_type : Text
  pub direction : Direction
  pub file_path : Text
  pub path : Option Text
  pub hop : Option Text

pub record DocstringHit : Type 0 where
  pub entity_type : Text
  pub name : Text
  pub qualified_name : Text
  pub file_path : Text
  pub line_start : Option ℤ
  pub line_end : Option ℤ
  pub text : Text
  pub summary : Text

-- a or b
unfoldable pub or_text : Text → Text → Text
or_text [] t = t
or_text (c ∷ s) t = c ∷ s

-- "" for None
unfoldable pub text_or_empty : Option Text → Text
text_or_empty none = []
text_or_empty (some t) = t

unfoldable pub non_empty : Text → Option Text
non_empty [] = none
non_empty (c ∷ s) = some (c ∷ s)

abbrev pub node_labels : List Text
node_labels =
    codes "Module"
    ∷ codes "Class"
    ∷ codes "Function"
    ∷ codes "Method"
    ∷ codes "Parameter"
    ∷ codes "Decorator"
    ∷ codes "Import"
    ∷ codes "Docstring"
    ∷ codes "File"
    ∷ codes "Meta"
    ∷ []

first_label : List Text → Text
first_label [] = []
first_label (t ∷ ts) = t

label_among : List Text → List Text → Text
unfolding first_label mem_text
label_among [] labels = first_label labels
label_among (n ∷ ns) labels = if mem_text n labels then n else label_among ns labels

unfoldable pub primary_label : List Text → Text
unfolding label_among
primary_label labels = label_among node_labels labels

-- "incoming", or else outgoing
unfoldable pub direction_of : Json → Direction
unfolding same_text
direction_of (str t) = if same_text t (codes "incoming") then incoming else outgoing
direction_of v = outgoing

-- The tier of a row that names one, or else the tier of the query.
unfoldable pub tier_of : Tier → Json → Tier
unfolding same_text
tier_of tier (str t) =
    if same_text t (codes "exact")
    then exact
    else if same_text t (codes "fulltext")
    then fulltext
    else if same_text t (codes "lexical")
    then lexical
    else tier
tier_of tier v = tier

module _ (str_of : Json → Text) where
  -- str(value or "")
  unfoldable pub text_of : Json → Text
  unfolding truthy
  text_of v = if truthy v then str_of v else []

  unfoldable pub opt_str : Json → Option Text
  unfolding non_empty
  opt_str null = none
  opt_str v = non_empty (str_of v)

  -- [str(item) for item in value if item is not None and str(item)]
  unfoldable pub item_texts : Items → List Text
  unfolding is_text
  item_texts nil = []
  item_texts (cons null vs) = item_texts vs
  item_texts (cons v vs) =
      let rest = item_texts vs in if is_text (str_of v) then str_of v ∷ rest else rest

  unfoldable pub str_list : Json → List Text
  unfolding item_texts
  str_list null = []
  str_list (str []) = []
  str_list (str (c ∷ s)) = (c ∷ s) ∷ []
  str_list (array vs) = item_texts vs
  str_list v = str_of v ∷ []

  unfoldable pub entity_type_of : Fields → Text
  unfolding or_text primary_label str_list text_of get_field
  entity_type_of row =
      or_text (primary_label (str_list (get_field "labels" row)))
        (text_of (get_field "entity_type" row))

  unfoldable pub neighbor_hit : Fields → NeighborHit
  unfolding or_text primary_label str_list text_of opt_str text_or_empty direction_of get_field
  neighbor_hit row = record {
    entity_type = primary_label (str_list (get_field "labels" row));
    name = or_text (text_of (get_field "name" row)) (
        or_text (text_or_empty (opt_str (get_field "module" row))) (
          or_text (text_or_empty (opt_str (get_field "path" row)))
            (text_of (get_field "qualified_name" row))));
    qualified_name = text_of (get_field "qualified_name" row);
    relationship_type = text_of (get_field "relationship_type" row);
    direction = direction_of (get_field "direction" row);
    file_path =
        or_text (text_of (get_field "file_path" row))
          (text_or_empty (opt_str (get_field "path" row)));
    path = opt_str (get_field "path" row);
    hop = opt_str (get_field "hop" row);
  }

module _ (str_of : Json → Text) (int_of : Json → ℤ) where
  unfoldable pub opt_int : Json → Option ℤ
  opt_int null = none
  opt_int (str []) = none
  opt_int v = some (int_of v)

  unfoldable pub docstring_hit : Fields → DocstringHit
  unfolding entity_type_of text_of opt_int or_text get_field
  docstring_hit row = record {
    entity_type = entity_type_of str_of row;
    name =
        or_text (text_of str_of (get_field "name" row))
          (text_of str_of (get_field "qualified_name" row));
    qualified_name = text_of str_of (get_field "qualified_name" row);
    file_path = text_of str_of (get_field "file_path" row);
    line_start = opt_int (get_field "line_start" row);
    line_end = opt_int (get_field "line_end" row);
    text = text_of str_of (get_field "text" row);
    summary = text_of str_of (get_field "summary" row);
  }

module _ (str_of : Json → Text) (int_of : Json → ℤ) (score_of : Json → ℤ) (one : ℤ) where
  -- The score of a row, 1.0 when it has none; `one` is 1.0 in the unit of the scores.
  unfoldable pub resolved_score : Json → ℤ
  resolved_score null = one
  resolved_score (str []) = one
  resolved_score v = score_of v

  unfoldable pub entity_hit : Tier → Fields → EntityHit
  unfolding entity_type_of text_of opt_str opt_int or_text text_or_empty tier_of resolved_score
      get_field
  entity_hit tier row = record {
    entity_type = entity_type_of str_of row;
    name = or_text (text_of str_of (get_field "name" row)) (
        or_text (text_or_empty (opt_str str_of (get_field "path" row)))
          (text_of str_of (get_field "qualified_name" row)));
    qualified_name = text_of str_of (get_field "qualified_name" row);
    file_path =
        or_text (text_of str_of (get_field "file_path" row))
          (text_or_empty (opt_str str_of (get_field "path" row)));
    path = opt_str str_of (get_field "path" row);
    line_start = opt_int str_of int_of (get_field "line_start" row);
    line_end = opt_int str_of int_of (get_field "line_end" row);
    tier = tier_of tier (get_field "tier" row);
    score = resolved_score (get_field "score" row);
    docstring_text = opt_str str_of (get_field "docstring_text" row);
    docstring_summary = opt_str str_of (get_field "docstring_summary" row);
  }

unfoldable pub hit_key : EntityHit → Text
unfolding or_text text_or_empty
hit_key hit =
    or_text hit.qualified_name (or_text hit.file_path (or_text (text_or_empty hit.path) hit.name))

unfoldable pub hit_sort_key : EntityHit → SortKey
unfolding retrieval_sort_key
hit_sort_key hit = retrieval_sort_key hit.tier hit.file_path hit.score hit.name hit.qualified_name

-- The hits so far and the keys seen.
pub record Ranked : Type 0 where
  pub hits : List EntityHit
  pub seen : List Text

unfoldable pub merge_hit : EntityHit → Ranked → Ranked
unfolding hit_key is_text mem_text
merge_hit hit r =
    if not (is_text (hit_key hit)) || mem_text (hit_key hit) r.seen
    then r
    else record { hits = r.hits ++ hit ∷ []; seen = r.seen ++ hit_key hit ∷ [] }

unfoldable pub merge_hits : List EntityHit → Ranked → Ranked
unfolding merge_hit
merge_hits [] r = r
merge_hits (h ∷ hs) r = merge_hits hs (merge_hit h r)

-- The hops that are not empty, each once.
unfoldable pub unique_hops : List NeighborHit → List Text → List Text
unfolding text_or_empty is_text mem_text
unique_hops [] hops = hops
unique_hops (n ∷ ns) hops = unique_hops ns (
    if not (is_text (text_or_empty n.hop)) || mem_text (text_or_empty n.hop) hops
    then hops
    else hops ++ text_or_empty n.hop ∷ [])
