-- ===== src/Indexing/Run.antt =====
-- core/src/core/indexing/indexer.py, `index_repository` and `index_file`. The walk over the
-- repository, the parser and the hash of the version are arguments: a file comes with its path, its
-- content hash, the message of the parser if it failed, and the functions and calls it found.
pub mod Rows
pub mod Walked
pub mod Hashes
pub mod Calls
pub mod File
use repo_agent.Prelude.{
  ℕ, ◌+◌, Bool, true, false, not, ◌&&◌, ◌||◌, Option, none, some, List, [], ◌∷◌, if◌then◌else◌,
  length,
}
use repo_agent.Prelude.Words.{Text, same_text}
use repo_agent.Indexing.Dotted.{get}
use repo_agent.Indexing.Graph.{Graph, set, delete_file_subtrees, upsert_call}

pub record SourceFile : Type 0 where
  pub path : Text
  pub content_hash : Text
  pub error : Text
  pub callables : List Text
  pub calls : List (Text × Text)

-- What the indexer calls: _resolve_name with the tables of the batch and of the graph, for a file, a
-- caller and a callee, and compute_index_version.
pub record Tools : Type 0 where
  pub resolve : List SourceFile → Graph → SourceFile → Text → Text → Option Text
  pub compute_index_version : List (Text × Text) → Text

pub data Mode : Type 0 where
  full incremental : Mode

-- What the walk over the files collects.
pub record Pass : Type 0 where
  pub to_upsert : List SourceFile
  pub changed_paths : List Text
  pub parse_errors : List (Text × Text)
  pub files_skipped : ℕ

unfoldable pub is_full : Mode → Bool
is_full full = true
is_full incremental = false

unfoldable pub is_hash : Option Text → Text → Bool
unfolding same_text
is_hash none h = false
is_hash (some p) h = same_text p h

-- index_mode != "full" and previous == content_hash
unfoldable pub is_skipped : Mode → List (Text × Text) → SourceFile → Bool
unfolding is_full is_hash get
is_skipped mode existing f = not (is_full mode) && is_hash (get f.path existing) f.content_hash

unfoldable pub has_failed : SourceFile → Bool
has_failed f = elim f.error [ [] ↦ false | ◌∷◌ c s ↦ true ]

unfoldable pub is_known : Text → List (Text × Text) → Bool
unfolding get
is_known path existing = elim (get path existing) [ none ↦ false | some h ↦ true ]

-- The file in front of those that are collected already.
collect : Bool → Bool → Bool → SourceFile → Pass → Pass
collect true failed known f p = record p { files_skipped = p.files_skipped + 1 }
collect false true known f p = record p { parse_errors = (f.path, f.error) ∷ p.parse_errors }
collect false false true f p = record p {
  to_upsert = f ∷ p.to_upsert;
  changed_paths = f.path ∷ p.changed_paths;
}
collect false false false f p = record p { to_upsert = f ∷ p.to_upsert }

unfoldable pub walk : Mode → List (Text × Text) → List SourceFile → Pass
unfolding collect is_skipped has_failed is_known
walk mode existing [] = record {
  to_upsert = [];
  changed_paths = [];
  parse_errors = [];
  files_skipped = 0;
}
walk mode existing (f ∷ files) =
    collect (is_skipped mode existing f) (has_failed f) (is_known f.path existing) f
      (walk mode existing files)

unfoldable pub find_file : Text → List SourceFile → Option SourceFile
unfolding same_text
find_file path [] = none
find_file path (f ∷ files) = if same_text f.path path then some f else find_file path files

unfoldable pub is_seen : Text → List SourceFile → Bool
unfolding same_text
is_seen path [] = false
is_seen path (f ∷ files) = same_text f.path path || is_seen path files

-- [path for path in existing if path not in seen_rel]
unfoldable pub stale_paths : List SourceFile → List (Text × Text) → List Text
unfolding is_seen
stale_paths files [] = []
stale_paths files ((path, h) ∷ existing) =
    let rest = stale_paths files existing in if is_seen path files then rest else path ∷ rest

-- No batch is run for no paths.
unfoldable pub purge_stale_files : List Text → Graph → Graph
unfolding delete_file_subtrees
purge_stale_files [] g = g
purge_stale_files (p ∷ paths) g = delete_file_subtrees (p ∷ paths) g

unfoldable pub set_files : List SourceFile → List (Text × Text) → List (Text × Text)
unfolding set
set_files [] d = d
set_files (f ∷ fs) d = set_files fs (set f.path f.content_hash d)

unfoldable pub set_callables : Text → List Text → List (Text × Text) → List (Text × Text)
unfolding set
set_callables path [] d = d
set_callables path (q ∷ qs) d = set_callables path qs (set q path d)

unfoldable pub all_callables : List SourceFile → List (Text × Text) → List (Text × Text)
unfolding set_callables
all_callables [] d = d
all_callables (f ∷ fs) d = all_callables fs (set_callables f.path f.callables d)

unfoldable pub link : Text → Option Text → Graph → Graph
unfolding upsert_call
link caller none g = g
link caller (some callee) g = upsert_call caller callee g

unfoldable pub link_calls : (Text → Text → Option Text) → List (Text × Text) → Graph → Graph
unfolding link
link_calls resolve [] g = g
link_calls resolve ((caller, callee) ∷ calls) g =
    link_calls resolve calls (link caller (resolve caller callee) g)

unfoldable pub link_files :
    (SourceFile → Text → Text → Option Text) → List SourceFile → Graph → Graph
unfolding link_calls
link_files resolve [] g = g
link_files resolve (f ∷ fs) g = link_files resolve fs (link_calls (resolve f) f.calls g)

-- _upsert_parsed_files: the nodes first, then the calls, resolved against all of them.
unfoldable pub upsert_parsed_files : Tools → List SourceFile → Graph → Graph
unfolding set_files all_callables link_files
upsert_parsed_files t fs g =
    let nodes = record g {
      files = set_files fs g.files;
      callables = all_callables fs g.callables;
    } in
    link_files (t.resolve fs nodes) fs nodes

unfoldable pub write_files : Tools → List SourceFile → List Text → Graph → Graph
unfolding upsert_parsed_files purge_stale_files
write_files t [] changed g = g
write_files t (f ∷ fs) changed g = upsert_parsed_files t (f ∷ fs) (purge_stale_files changed g)

unfoldable pub update_index_version : Tools → Graph → Graph
update_index_version t g = record g { index_version = t.compute_index_version g.files }

pub record IndexReport : Type 0 where
  pub files_seen : ℕ
  pub files_indexed : ℕ
  pub files_skipped : ℕ
  pub files_purged : ℕ
  pub parse_errors : List (Text × Text)

unfoldable pub index_repository : Tools → Mode → List SourceFile → Graph → IndexReport × Graph
unfolding walk stale_paths purge_stale_files write_files update_index_version
index_repository t mode files g =
    let p = walk mode g.files files in
    let stale = stale_paths files g.files in
    let g' = write_files t p.to_upsert p.changed_paths (purge_stale_files stale g) in
    (
      record {
        files_seen = length files;
        files_indexed = length p.to_upsert;
        files_skipped = p.files_skipped;
        files_purged = length stale;
        parse_errors = p.parse_errors;
      },
      update_index_version t g',
    )

pub record FileReport : Type 0 where
  pub found : Bool
  pub indexed : Bool
  pub skipped : Bool
  pub file_errors : List (Text × Text)

only_path : Bool → Text → List Text
only_path true path = path ∷ []
only_path false path = []

index_one : Tools → Bool → Bool → SourceFile → Graph → FileReport × Graph
unfolding only_path write_files update_index_version is_known
index_one t true failed f g =
    (record { found = true; indexed = false; skipped = true; file_errors = [] }, g)
index_one t false true f g = (
  record { found = true; indexed = false; skipped = false; file_errors = (f.path, f.error) ∷ [] },
  g,
)
index_one t false false f g = (
  record { found = true; indexed = true; skipped = false; file_errors = [] },
  update_index_version t (write_files t (f ∷ []) (only_path (is_known f.path g.files) f.path) g),
)

-- none where the path is no file.
unfoldable pub index_file : Tools → Option SourceFile → Graph → FileReport × Graph
unfolding index_one is_hash has_failed
index_file t none g =
    (record { found = false; indexed = false; skipped = false; file_errors = [] }, g)
index_file t (some f) g =
    index_one t (is_hash (get f.path g.files) f.content_hash) (has_failed f) f g
