-- ===== src/Indexing/Run/Walked.antt =====
-- core/src/core/indexing/indexer.py: what the walk over the files collects.
use repo_agent.Prelude.{
  ◌≡◌, refl, sym, ap, ◌∙◌, subst, inl, inr, Bool, true, false, not, ◌&&◌, ◌||◌, Option, none, some,
  List, [], ◌∷◌, arith, if◌then◌else◌, Bool-cases,
}
use repo_agent.Prelude.Words.{Text, same_text, mem_text, same_text_sound, same_text_sym}
use repo_agent.Indexing.Dotted.{get}
use repo_agent.Indexing.Graph.{Graph, set, upsert_call}
use repo_agent.Indexing.Run.{
  SourceFile, Mode, Pass, is_skipped, has_failed, is_known, walk, collect, find_file, set_files,
  link, link_calls, link_files,
}
use repo_agent.Indexing.Run.Rows.{get-set}

-- No path stands twice in the walk.
unfoldable pub IsWalk : List SourceFile → Type 0
unfolding find_file
IsWalk [] = Unit
IsWalk (f ∷ files) = (find_file f.path files ≡ none) × IsWalk files

upsert_call-files : (a b : Text) (g : Graph) → (upsert_call a b g).files ≡ g.files
unfolding upsert_call
upsert_call-files a b g = ground arith

link-files : (a : Text) (o : Option Text) (g : Graph) → (link a o g).files ≡ g.files
unfolding link
link-files a none g = refl
link-files a (some b) g = upsert_call-files a b g

link_calls-files :
    (r : Text → Text → Option Text) (calls : List (Text × Text)) (g : Graph)
    → (link_calls r calls g).files ≡ g.files
unfolding link_calls
link_calls-files r [] g = refl
link_calls-files r ((a, b) ∷ calls) g =
    link_calls-files r calls (link a (r a b) g) ∙ link-files a (r a b) g

pub link_files-files :
    (r : SourceFile → Text → Text → Option Text) (fs : List SourceFile) (g : Graph)
    → (link_files r fs g).files ≡ g.files
unfolding link_files
link_files-files r [] g = refl
link_files-files r (f ∷ fs) g =
    link_files-files r fs (link_calls (r f) f.calls g) ∙ link_calls-files (r f) f.calls g

-- The hash of the file, if it is there, or what was there before.
unfoldable pub hash_or : Option Text → Option SourceFile → Option Text
hash_or before none = before
hash_or before (some f) = some f.content_hash

pub get-set_files :
    (k : Text) (fs : List SourceFile) (d : List (Text × Text))
    → IsWalk fs
    → get k (set_files fs d) ≡ hash_or (get k d) (find_file k fs)
unfolding set_files find_file hash_or IsWalk
get-set_files k [] d w = refl
get-set_files k (f ∷ fs) d (n, w) =
    get-set_files k fs (set f.path f.content_hash d) w
    ∙ ap (λ x. hash_or x (find_file k fs)) (get-set k f.path f.content_hash d)
    ∙ (elim (Bool-cases (same_text f.path k)) [
      | inl h ↦ rw h (
          ap (hash_or (some f.content_hash))
            (subst (λ x. find_file x fs ≡ none) (same_text_sound f.path k h) n))
      | inr h ↦ rw h refl
    ])

-- The file is parsed, and parses.
unfoldable pub takes : Mode → List (Text × Text) → SourceFile → Bool
takes mode existing f = not (is_skipped mode existing f) && not (has_failed f)

unfoldable pub kept : Mode → List (Text × Text) → Option SourceFile → Option SourceFile
unfolding takes
kept mode existing none = none
kept mode existing (some f) = if takes mode existing f then some f else none

find_if :
    (t : Bool) (k : Text) (f : SourceFile) (fs : List SourceFile)
    → find_file k (if t then f ∷ fs else fs)
      ≡ (if t then (if same_text f.path k then some f else find_file k fs) else find_file k fs)
unfolding find_file
find_if true k f fs = refl
find_if false k f fs = refl

mem_if :
    (t : Bool) (k j : Text) (js : List Text)
    → mem_text k (if t then j ∷ js else js)
      ≡ (if t then same_text k j || mem_text k js else mem_text k js)
unfolding mem_text
mem_if true k j js = refl
mem_if false k j js = refl

upsert_step :
    (t h : Bool) (f : SourceFile) (x y : Option SourceFile)
    → (h ≡ true → x ≡ none)
    → (h ≡ false → x ≡ y)
    → (if t then (if h then some f else x) else x) ≡ (if h then (if t then some f else none) else y)
upsert_step true true f x y p q = refl
upsert_step true false f x y p q = q refl
upsert_step false true f x y p q = p refl
upsert_step false false f x y p q = q refl

change_step :
    (t i h x y : Bool)
    → i ≡ h
    → (h ≡ true → x ≡ false)
    → (h ≡ false → x ≡ y)
    → (if t then i || x else x) ≡ (if h then t else y)
change_step t i h x y e p q = ground arith

IsWalk-if :
    (t : Bool) (f : SourceFile) (fs : List SourceFile)
    → find_file f.path fs ≡ none
    → IsWalk fs
    → IsWalk (if t then f ∷ fs else fs)
unfolding IsWalk
IsWalk-if true f fs n w = (n, w)
IsWalk-if false f fs n w = w

module _ (mode : Mode) (existing : List (Text × Text)) where
  kept_if :
      (h : Bool) (f : SourceFile) (o : Option SourceFile)
      → kept mode existing (if h then some f else o)
        ≡ (if h then (if takes mode existing f then some f else none) else kept mode existing o)
  unfolding kept
  kept_if true f o = refl
  kept_if false f o = refl

  collect_upserts :
      (skipped failed known : Bool) (f : SourceFile) (p : Pass)
      → (collect skipped failed known f p).to_upsert
        ≡ (if not skipped && not failed then f ∷ p.to_upsert else p.to_upsert)
  unfolding collect
  collect_upserts skipped failed known f p = ground arith

  collect_changed :
      (skipped failed known : Bool) (f : SourceFile) (p : Pass)
      → (collect skipped failed known f p).changed_paths ≡ (
          if (not skipped && not failed) && known
          then f.path ∷ p.changed_paths
          else p.changed_paths)
  unfolding collect
  collect_changed skipped failed known f p = ground arith

  pub find_file-walk :
      (k : Text) (files : List SourceFile)
      → IsWalk files
      → find_file k (walk mode existing files).to_upsert ≡ kept mode existing (find_file k files)
  unfolding walk find_file kept takes IsWalk
  find_file-walk k [] w = refl
  find_file-walk k (f ∷ files) (n, w) =
      ap (find_file k) (
        collect_upserts (is_skipped mode existing f) (has_failed f) (is_known f.path existing) f
          (walk mode existing files))
      ∙ find_if (takes mode existing f) k f (walk mode existing files).to_upsert
      ∙ upsert_step (takes mode existing f) (same_text f.path k) f _ _
          (λ h.
            find_file-walk k files w
            ∙ ap (kept mode existing)
                (subst (λ x. find_file x files ≡ none) (same_text_sound f.path k h) n))
          (λ h. find_file-walk k files w)
      ∙ sym (kept_if (same_text f.path k) f (find_file k files))

  -- Whether the file is taken and was in the graph before.
  unfoldable pub replaced : Option SourceFile → Bool
  unfolding takes
  replaced none = false
  replaced (some f) = takes mode existing f && is_known f.path existing

  replaced_if :
      (h : Bool) (f : SourceFile) (o : Option SourceFile)
      → replaced (if h then some f else o)
        ≡ (if h then takes mode existing f && is_known f.path existing else replaced o)
  unfolding replaced
  replaced_if true f o = refl
  replaced_if false f o = refl

  pub changed-walk :
      (k : Text) (files : List SourceFile)
      → IsWalk files
      → mem_text k (walk mode existing files).changed_paths ≡ replaced (find_file k files)
  unfolding walk find_file replaced takes IsWalk mem_text
  changed-walk k [] w = refl
  changed-walk k (f ∷ files) (n, w) =
      ap (mem_text k) (
        collect_changed (is_skipped mode existing f) (has_failed f) (is_known f.path existing) f
          (walk mode existing files))
      ∙ mem_if (takes mode existing f && is_known f.path existing) k f.path
          (walk mode existing files).changed_paths
      ∙ change_step (takes mode existing f && is_known f.path existing) (same_text k f.path)
          (same_text f.path k) _ _ (same_text_sym k f.path)
          (λ h.
            changed-walk k files w
            ∙ ap replaced (subst (λ x. find_file x files ≡ none) (same_text_sound f.path k h) n))
          (λ h. changed-walk k files w)
      ∙ sym (replaced_if (same_text f.path k) f (find_file k files))

  pub IsWalk-walk :
      (files : List SourceFile) → IsWalk files → IsWalk (walk mode existing files).to_upsert
  unfolding walk IsWalk kept
  IsWalk-walk [] w = tt
  IsWalk-walk (f ∷ files) (n, w) =
      subst IsWalk
        (sym (
          collect_upserts (is_skipped mode existing f) (has_failed f) (is_known f.path existing) f
            (walk mode existing files)))
        (IsWalk-if (takes mode existing f) f _
          (find_file-walk f.path files w ∙ ap (kept mode existing) n) (IsWalk-walk files w))
