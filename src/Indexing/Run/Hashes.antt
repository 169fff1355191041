-- ===== src/Indexing/Run/Hashes.antt =====
-- core/src/core/indexing/indexer.py: the content hashes that a run leaves in the graph.
use repo_agent.Prelude.{
  ◌≡◌, refl, sym, ap, ◌∙◌, ◌⊎◌, inl, inr, Bool, true, false, not, ◌&&◌, ◌||◌, Option, none, some,
  List, [], ◌∷◌, arith, if◌then◌else◌,
}
use repo_agent.Prelude.Words.{Text, same_text, mem_text, same_text_sound, same_text_sym}
use repo_agent.Indexing.Dotted.{get}
use repo_agent.Indexing.Graph.{Graph, delete_file_subtrees, has_key}
use repo_agent.Indexing.Run.{
  SourceFile, Tools, Mode, is_hash, is_skipped, has_failed, is_known, walk, find_file, is_seen,
  stale_paths, purge_stale_files, set_files, all_callables, upsert_parsed_files, write_files,
  update_index_version, index_repository,
}
use repo_agent.Indexing.Run.Rows.{get-without_keys}
use repo_agent.Indexing.Run.Walked.{
  IsWalk, link_files-files, hash_or, get-set_files, takes, kept, find_file-walk, replaced,
  changed-walk, IsWalk-walk,
}

get-purge :
    (k : Text) (paths : List Text) (g : Graph)
    → get k (purge_stale_files paths g).files ≡ (if mem_text k paths then none else get k g.files)
unfolding purge_stale_files delete_file_subtrees mem_text
get-purge k [] g = refl
get-purge k (p ∷ paths) g = get-without_keys k (p ∷ paths) g.files

seen_same :
    (j k : Text) (files : List SourceFile)
    → same_text j k ≡ true
    → is_seen j files ≡ is_seen k files
seen_same j k files h = ap (λ x. is_seen x files) (same_text_sound j k h)

mem_unless :
    (t : Bool) (k j : Text) (js : List Text)
    → mem_text k (if t then js else j ∷ js)
      ≡ (if t then mem_text k js else same_text k j || mem_text k js)
unfolding mem_text
mem_unless true k j js = refl
mem_unless false k j js = refl

stale_step :
    (s i h m n e : Bool)
    → i ≡ h
    → (h ≡ true → s ≡ e)
    → m ≡ (n && not e)
    → (if s then m else i || m) ≡ ((h || n) && not e)
stale_step s i h m n e p q r = ground arith

pub mem-stale_paths :
    (k : Text) (files : List SourceFile) (d : List (Text × Text))
    → mem_text k (stale_paths files d) ≡ (has_key k d && not (is_seen k files))
unfolding stale_paths has_key mem_text
mem-stale_paths k files [] = refl
mem-stale_paths k files ((j, h) ∷ d) =
    mem_unless (is_seen j files) k j (stale_paths files d)
    ∙ stale_step (is_seen j files) (same_text k j) (same_text j k) _ (has_key k d) (is_seen k files)
        (same_text_sym k j) (seen_same j k files) (mem-stale_paths k files d)

get-has_key : (k : Text) (d : List (Text × Text)) → has_key k d ≡ false → get k d ≡ none
unfolding has_key get
get-has_key k [] h = refl
get-has_key k ((j, v) ∷ d) h = ground (arith, get-has_key k d)

stale_cases :
    (m n e : Bool) (x : Option Text)
    → m ≡ (n && not e)
    → (n ≡ false → x ≡ none)
    → (if m then none else x) ≡ (if e then x else none)
stale_cases m true true x p q = rw p refl
stale_cases m true false x p q = rw p refl
stale_cases m false true x p q = rw p refl
stale_cases m false false x p q = rw p (q refl)

get-stale :
    (k : Text) (files : List SourceFile) (d : List (Text × Text))
    → (if mem_text k (stale_paths files d) then none else get k d)
      ≡ (if is_seen k files then get k d else none)
get-stale k files d =
    stale_cases (mem_text k (stale_paths files d)) (has_key k d) (is_seen k files) (get k d)
      (mem-stale_paths k files d) (get-has_key k d)

unfoldable pub is_found : Option SourceFile → Bool
is_found none = false
is_found (some f) = true

found_if :
    (b : Bool) (f : SourceFile) (o : Option SourceFile)
    → is_found (if b then some f else o) ≡ (b || is_found o)
unfolding is_found
found_if true f o = refl
found_if false f o = refl

pub is_seen-find_file :
    (k : Text) (files : List SourceFile) → is_seen k files ≡ is_found (find_file k files)
unfolding is_seen find_file is_found
is_seen-find_file k [] = refl
is_seen-find_file k (f ∷ files) =
    ap (λ x. same_text f.path k || x) (is_seen-find_file k files)
    ∙ sym (found_if (same_text f.path k) f (find_file k files))

pub get-write_files :
    (t : Tools) (k : Text) (fs : List SourceFile) (changed : List Text) (g : Graph)
    → IsWalk fs
    → (fs ≡ [] → mem_text k changed ≡ false)
    → get k (write_files t fs changed g).files
      ≡ hash_or (if mem_text k changed then none else get k g.files) (find_file k fs)
unfolding write_files upsert_parsed_files hash_or find_file
get-write_files t k [] changed g w h = rw (h refl) refl
get-write_files t k (f ∷ fs) changed g w h =
    let g' = purge_stale_files changed g in
    let nodes = record g' {
      files = set_files (f ∷ fs) g'.files;
      callables = all_callables (f ∷ fs) g'.callables;
    } in
    ap (get k) (link_files-files (t.resolve (f ∷ fs) nodes) (f ∷ fs) nodes)
    ∙ get-set_files k (f ∷ fs) g'.files w
    ∙ ap (λ x. hash_or x (find_file k (f ∷ fs))) (get-purge k changed g)

-- The hash that a file should have: its own, or what was there before if it does not parse.
unfoldable pub expected_hash : Option Text → Option SourceFile → Option Text
expected_hash before none = none
expected_hash before (some f) = if has_failed f then before else some f.content_hash

pub hash_sound : (b : Bool) (o : Option Text) (h : Text) → (b && is_hash o h) ≡ true → o ≡ some h
unfolding is_hash
hash_sound true none h e = ground arith
hash_sound false none h e = ground arith
hash_sound false (some p) h e = ground arith
hash_sound true (some p) h e = ap some (same_text_sound p h e)

skipped_hash :
    (mode : Mode) (existing : List (Text × Text)) (f : SourceFile)
    → is_skipped mode existing f ≡ true
    → get f.path existing ≡ some f.content_hash
unfolding is_skipped
skipped_hash mode existing f h = hash_sound _ (get f.path existing) f.content_hash h

taken_cases :
    (s d n : Bool) (x : Option Text) (f : SourceFile)
    → (s ≡ true → x ≡ some f.content_hash)
    → hash_or (if (not s && not d) && n then none else x) (if not s && not d then some f else none)
      ≡ (if d then x else some f.content_hash)
unfolding hash_or
taken_cases true true n x f h = refl
taken_cases true false n x f h = h refl
taken_cases false true n x f h = refl
taken_cases false false n x f h = refl

hash_cases :
    (mode : Mode) (existing : List (Text × Text)) (k : Text) (o : Option SourceFile)
    → ((f : SourceFile) → o ≡ some f → f.path ≡ k)
    → hash_or
        (if replaced mode existing o then none else (if is_found o then get k existing else none))
        (kept mode existing o)
      ≡ expected_hash (get k existing) o
unfolding hash_or replaced kept expected_hash is_found takes
hash_cases mode existing k none h = refl
hash_cases mode existing k (some f) h =
    taken_cases (is_skipped mode existing f) (has_failed f) (is_known f.path existing)
      (get k existing) f
      (λ e. ap (λ x. get x existing) (sym (h f refl)) ∙ skipped_hash mode existing f e)

path_or : Text → Option SourceFile → Text
path_or k none = k
path_or k (some f) = f.path

path_if :
    (b : Bool) (g f : SourceFile) (o : Option SourceFile)
    → (if b then some g else o) ≡ some f
    → ((b ≡ true) × (g.path ≡ f.path)) ⊎ (o ≡ some f)
unfolding path_or
path_if true g f o e = inl (refl, ap (path_or f.path) e)
path_if false g f o e = inr e

none_if : (t n : Bool) (f : SourceFile) → (if t then some f else none) ≡ none → (t && n) ≡ false
none_if true n f e = absurd (ground arith)
none_if false n f e = refl

find_file-path :
    (k : Text) (files : List SourceFile) (f : SourceFile) → find_file k files ≡ some f → f.path ≡ k
unfolding find_file
find_file-path k [] f e = ground arith
find_file-path k (g ∷ files) f e = elim (path_if (same_text g.path k) g f _ e) [
  | inl (h, p) ↦ sym p ∙ same_text_sound g.path k h
  | inr h ↦ find_file-path k files f h
]

none_changed :
    (mode : Mode) (existing : List (Text × Text)) (o : Option SourceFile)
    → kept mode existing o ≡ none
    → replaced mode existing o ≡ false
unfolding kept replaced takes
none_changed mode existing none e = refl
none_changed mode existing (some f) e =
    none_if (takes mode existing f) (is_known f.path existing) f e

-- After a run over files whose paths differ, whatever the mode and whatever the resolution of names,
-- the graph has the hash of every file that parses, the hash from before for a file that does not,
-- and no other path.
pub index_repository-hashes :
    (t : Tools) (mode : Mode) (files : List SourceFile) (g : Graph) (k : Text)
    → IsWalk files
    → get k (index_repository t mode files g).1.files
      ≡ expected_hash (get k g.files) (find_file k files)
unfolding index_repository update_index_version find_file
index_repository-hashes t mode files g k w =
    let p = walk mode g.files files in
    let g' = purge_stale_files (stale_paths files g.files) g in
    get-write_files t k p.to_upsert p.changed_paths g' (IsWalk-walk mode g.files files w) (λ e.
      changed-walk mode g.files k files w
      ∙ none_changed mode g.files (find_file k files)
          (sym (find_file-walk mode g.files k files w) ∙ ap (find_file k) e))
    ∙ ap (λ x. hash_or x (find_file k p.to_upsert))
        (ap (λ x. if x then none else get k g'.files) (changed-walk mode g.files k files w)
          ∙ ap (λ x. if replaced mode g.files (find_file k files) then none else x)
              (get-purge k (stale_paths files g.files) g
                ∙ get-stale k files g.files
                ∙ ap (λ x. if x then get k g.files else none) (is_seen-find_file k files)))
    ∙ ap (hash_or _) (find_file-walk mode g.files k files w)
    ∙ hash_cases mode g.files k (find_file k files) (find_file-path k files)
