-- ===== src/Indexing/Run/File.antt =====
-- core/src/core/indexing/indexer.py: `index_file` against `index_repository`.
use repo_agent.Prelude.{
  ◌≡◌, refl, sym, ap, ◌∙◌, subst, Bool, true, false, Option, none, some, [], ◌∷◌, arith,
  if◌then◌else◌,
}
use repo_agent.Prelude.Words.{Text, same_text, mem_text, same_text_sound, same_text_sym}
use repo_agent.Indexing.Dotted.{get}
use repo_agent.Indexing.Graph.{Graph}
use repo_agent.Indexing.Run.{
  SourceFile, Tools, is_hash, has_failed, is_known, find_file, write_files, update_index_version,
  index_one, only_path, index_file,
}
use repo_agent.Indexing.Run.Walked.{IsWalk, hash_or}
use repo_agent.Indexing.Run.Hashes.{get-write_files, expected_hash, hash_sound}

clash : true ≡ false → ⊥
clash e = subst (λ b. if b then Unit else ⊥) e tt

replaced_cases :
    (m s : Bool) (x : Option Text) (f : SourceFile)
    → (m ≡ true → s ≡ true)
    → hash_or (if m then none else x) (if s then some f else none)
      ≡ (if s then some f.content_hash else x)
unfolding hash_or
replaced_cases true true x f h = refl
replaced_cases true false x f h = absurd (clash (sym (h refl)))
replaced_cases false true x f h = refl
replaced_cases false false x f h = refl

mem-only_path :
    (n : Bool) (k path : Text) → mem_text k (only_path n path) ≡ true → same_text path k ≡ true
unfolding only_path mem_text
mem-only_path true k path h = ground (arith, same_text_sym k path)
mem-only_path false k path h = ground arith

written_hash :
    (t : Tools) (k : Text) (f : SourceFile) (n : Bool) (g : Graph)
    → get k (write_files t (f ∷ []) (only_path n f.path) g).files
      ≡ (if same_text f.path k then some f.content_hash else get k g.files)
unfolding find_file only_path hash_or IsWalk mem_text
written_hash t k f n g =
    get-write_files t k (f ∷ []) (only_path n f.path) g (refl, tt) (λ e. absurd (ground arith))
    ∙ replaced_cases (mem_text k (only_path n f.path)) (same_text f.path k) (get k g.files) f
        (mem-only_path n k f.path)

-- Both a file that is left as it is and one that fails keep what the graph has.
unchanged_cases :
    (d s : Bool) (x y h : Option Text)
    → (s ≡ true → x ≡ y)
    → (d ≡ false → x ≡ h)
    → y ≡ (if s then (if d then x else h) else y)
unchanged_cases true true x y h p q = sym (p refl)
unchanged_cases false true x y h p q = sym (p refl) ∙ q refl
unchanged_cases true false x y h p q = refl
unchanged_cases false false x y h p q = refl

module _ (t : Tools) (k : Text) (f : SourceFile) (g : Graph) where
  same_file : same_text f.path k ≡ true → get f.path g.files ≡ get k g.files
  same_file e = ap (λ x. get x g.files) (same_text_sound f.path k e)

  index_one-hashes :
      (s d : Bool)
      → (s ≡ true → get f.path g.files ≡ some f.content_hash)
      → get k (index_one t s d f g).1.files ≡ (
          if same_text f.path k
          then (if d then get f.path g.files else some f.content_hash)
          else get k g.files)
  unfolding index_one update_index_version
  index_one-hashes true d h =
      unchanged_cases d (same_text f.path k) (get f.path g.files) (get k g.files)
        (some f.content_hash) same_file (λ e. h refl)
  index_one-hashes false true h =
      unchanged_cases true (same_text f.path k) (get f.path g.files) (get k g.files)
        (some f.content_hash) same_file (λ e. absurd (clash e))
  index_one-hashes false false h = written_hash t k f (is_known f.path g.files) g

-- Indexing one file touches no other path, and leaves for its own the hash that a run over the whole
-- repository leaves for it.
pub index_file-hashes :
    (t : Tools) (k : Text) (f : SourceFile) (g : Graph)
    → get k (index_file t (some f) g).1.files
      ≡ (if same_text f.path k then expected_hash (get f.path g.files) (some f) else get k g.files)
unfolding index_file expected_hash
index_file-hashes t k f g =
    index_one-hashes t k f g (is_hash (get f.path g.files) f.content_hash) (has_failed f)
      (λ e. hash_sound true (get f.path g.files) f.content_hash e)
