-- ===== src/Indexing/Graph.antt =====
-- core/src/core/graph/upserts.py: what the batches of the indexer do to the files, the functions and
-- methods, and the calls of the graph. A node that is MERGEd is found by its key.
use repo_agent.Prelude.{Bool, false, not, ◌&&◌, ◌||◌, List, [], ◌∷◌, ◌++◌, if◌then◌else◌}
use repo_agent.Prelude.Words.{Text, same_text, mem_text}

-- `files` holds the content hash of a path, `callables` the file of a qualified name.
pub record Graph : Type 0 where
  pub files : List (Text × Text)
  pub callables : List (Text × Text)
  pub calls : List (Text × Text)
  pub index_version : Text

-- MERGE by the key, then SET
unfoldable pub set : Text → Text → List (Text × Text) → List (Text × Text)
unfolding same_text
set k v [] = (k, v) ∷ []
set k v ((j, w) ∷ d) = if same_text j k then (j, v) ∷ d else (j, w) ∷ set k v d

-- The rows whose key is none of the paths.
unfoldable pub without_keys : List Text → List (Text × Text) → List (Text × Text)
unfolding mem_text
without_keys paths [] = []
without_keys paths ((k, v) ∷ d) =
    let rest = without_keys paths d in if mem_text k paths then rest else (k, v) ∷ rest

unfoldable pub without_files : List Text → List (Text × Text) → List (Text × Text)
unfolding mem_text
without_files paths [] = []
without_files paths ((q, file) ∷ d) =
    let rest = without_files paths d in if mem_text file paths then rest else (q, file) ∷ rest

-- The callables that stand in one of the files.
unfoldable pub owned : List Text → List (Text × Text) → List Text
unfolding mem_text
owned paths [] = []
owned paths ((q, file) ∷ d) =
    let rest = owned paths d in if mem_text file paths then q ∷ rest else rest

-- DETACH DELETE takes the relationships of the nodes along.
unfoldable pub detached : List Text → List (Text × Text) → List (Text × Text)
unfolding mem_text
detached gone [] = []
detached gone ((a, b) ∷ calls) =
    let rest = detached gone calls in
    if mem_text a gone || mem_text b gone then rest else (a, b) ∷ rest

-- The batch of delete_file_subtree, for all the paths.
unfoldable pub delete_file_subtrees : List Text → Graph → Graph
unfolding without_keys without_files owned detached
delete_file_subtrees paths g = record g {
  files = without_keys paths g.files;
  callables = without_files paths g.callables;
  calls = detached (owned paths g.callables) g.calls;
}

unfoldable pub has_key : Text → List (Text × Text) → Bool
unfolding same_text
has_key k [] = false
has_key k ((j, v) ∷ d) = same_text j k || has_key k d

unfoldable pub has_call : Text → Text → List (Text × Text) → Bool
unfolding same_text
has_call a b [] = false
has_call a b ((c, d) ∷ calls) = (same_text c a && same_text d b) || has_call a b calls

-- MATCH both ends, MERGE the relationship
unfoldable pub upsert_call : Text → Text → Graph → Graph
unfolding has_key has_call
upsert_call a b g =
    if has_key a g.callables && (has_key b g.callables && not (has_call a b g.calls))
    then record g { calls = g.calls ++ (a, b) ∷ [] }
    else g
