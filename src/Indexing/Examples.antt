-- ===== src/Indexing/Examples.antt =====
-- A name that a package passes on, and a repository of two files of which one has changed.
use repo_agent.Prelude.{◌≡◌, refl, true, false, none, some, List, [], ◌∷◌}
use repo_agent.Prelude.Text.{codes}
use repo_agent.Indexing.Dotted.{get}
use repo_agent.Indexing.Imports.{ParsedImport, bindings_from_imports, resolve_relative_module}
use repo_agent.Indexing.Names.{Index, Site, resolve_name}
use repo_agent.Indexing.Names.Resolved.{Justified, resolve_name-Justified}
use repo_agent.Indexing.Graph.{Graph, has_call}
use repo_agent.Indexing.Run.{
  SourceFile, Tools, incremental, find_file, index_repository, walk, is_skipped, has_failed,
  is_known,
}
use repo_agent.Indexing.Run.Walked.{IsWalk, takes}
use repo_agent.Indexing.Run.Hashes.{expected_hash, index_repository-hashes}
use repo_agent.Indexing.Run.Calls.{is_caller, index_repository-forgets_calls}

-- from .param_functions import Depends, in fastapi/__init__.py
abbrev depends_import : ParsedImport
depends_import = record {
  import_module = some (codes ".param_functions");
  names = codes "Depends" ∷ [];
  alias = none;
}

one_level_up : resolve_relative_module (codes "..b") (codes "a.c.d") false ≡ codes "a.b"
unfolding resolve_relative_module
one_level_up = refl

abbrev index : Index
index = record {
  qn_index =
      (codes "fastapi.param_functions.Depends", codes "fastapi.param_functions.Depends") ∷ [];
  name_index = [];
  module_qns = some (codes "fastapi" ∷ codes "fastapi.param_functions" ∷ []);
  class_qns = some [];
  reexports =
      some (
        (codes "fastapi", bindings_from_imports (depends_import ∷ []) (codes "fastapi") true) ∷ []);
}

abbrev site : Site
site = record {
  module_name = codes "app";
  caller_qn = codes "app.main";
  bindings = some ((codes "fastapi", codes "fastapi") ∷ []);
  visible_modules = some (codes "app" ∷ codes "fastapi" ∷ []);
}

resolve_name-Justified_example :
    Justified index site (codes "fastapi.Depends") (codes "fastapi.param_functions.Depends")
unfolding resolve_name bindings_from_imports
resolve_name-Justified_example =
    resolve_name-Justified index site (codes "fastapi.Depends")
      (codes "fastapi.param_functions.Depends") refl

abbrev caller_file : SourceFile
caller_file = record {
  path = codes "a.py";
  content_hash = codes "1";
  error = [];
  callables = codes "a.f" ∷ [];
  calls = (codes "a.f", codes "b.g") ∷ [];
}

abbrev callee_file : SourceFile
callee_file = record {
  path = codes "b.py";
  content_hash = codes "3";
  error = [];
  callables = codes "b.g" ∷ [];
  calls = [];
}

abbrev two_files : List SourceFile
two_files = caller_file ∷ callee_file ∷ []

abbrev tools : Tools
tools = record {
  resolve = λ batch g file caller callee. some callee;
  compute_index_version = λ hashes. codes "v";
}

-- The graph of the files before b.py changed.
abbrev before : Graph
before = record {
  files = (codes "a.py", codes "1") ∷ (codes "b.py", codes "2") ∷ [];
  callables = (codes "a.f", codes "a.py") ∷ (codes "b.g", codes "b.py") ∷ [];
  calls = (codes "a.f", codes "b.g") ∷ [];
  index_version = [];
}

index_repository-hashes_example :
    get (codes "b.py") (index_repository tools incremental two_files before).1.files
    ≡ expected_hash (get (codes "b.py") before.files) (find_file (codes "b.py") two_files)
unfolding IsWalk find_file
index_repository-hashes_example =
    index_repository-hashes tools incremental two_files before (codes "b.py") (refl, (refl, tt))

index_repository-forgets_calls_example :
    has_call
      (codes "a.f")
      (codes "b.g")
      (index_repository tools incremental two_files before).1.calls
    ≡ false
unfolding IsWalk find_file takes is_skipped has_failed is_known get is_caller walk
index_repository-forgets_calls_example =
    index_repository-forgets_calls tools incremental two_files before (codes "a.f") (codes "b.g")
      (codes "b.py") callee_file (refl, (refl, tt)) refl refl refl refl
