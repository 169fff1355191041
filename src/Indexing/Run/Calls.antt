-- ===== src/Indexing/Run/Calls.antt =====
-- core/src/core/indexing/indexer.py: the calls that a run leaves in the graph.
use repo_agent.Prelude.{
  ◌≡◌, refl, sym, ap, ◌∙◌, subst, ◌⊎◌, inl, inr, Bool, true, false, not, ◌&&◌, ◌||◌, Option, none,
  some, List, [], ◌∷◌, ◌++◌, arith, if◌then◌else◌,
}
use repo_agent.Prelude.Words.{Text, same_text, mem_text, mem_same, same_text_sym}
use repo_agent.Indexing.Dotted.{get}
use repo_agent.Indexing.Graph.{
  Graph, delete_file_subtrees, without_files, owned, detached, has_call, upsert_call, has_key,
}
use repo_agent.Indexing.Run.{
  SourceFile, Tools, Mode, is_known, walk, find_file, stale_paths, purge_stale_files, link,
  link_calls, link_files, upsert_parsed_files, write_files, update_index_version, index_repository,
}
use repo_agent.Indexing.Run.Walked.{IsWalk, kept, takes, find_file-walk, replaced, changed-walk}
use repo_agent.Indexing.Run.Hashes.{mem-stale_paths, is_found, is_seen-find_file}
use repo_agent.Indexing.Dotted.Prefixes.{some_injective}

-- A call of the list is from `a`.
calls_from : Text → List (Text × Text) → Bool
unfolding same_text
calls_from a [] = false
calls_from a ((caller, callee) ∷ calls) = same_text caller a || calls_from a calls

-- A file of the list has a call from `a`.
unfoldable pub is_caller : Text → List SourceFile → Bool
unfolding calls_from
is_caller a [] = false
is_caller a (f ∷ fs) = calls_from a f.calls || is_caller a fs

has_call-append :
    (a b : Text) (xs ys : List (Text × Text))
    → has_call a b (xs ++ ys) ≡ (has_call a b xs || has_call a b ys)
unfolding has_call
has_call-append a b [] ys = refl
has_call-append a b ((c, d) ∷ xs) ys = ground (arith, has_call-append a b xs ys)

appended_call :
    (a b c d : Text) (xs : List (Text × Text))
    → same_text c a ≡ false
    → has_call a b (xs ++ (c, d) ∷ []) ≡ has_call a b xs
unfolding has_call
appended_call a b c d xs h = ground (arith, has_call-append a b xs ((c, d) ∷ []))

calls_if : (x : Bool) (g h : Graph) (p : Graph → Bool) → p g ≡ p h → p (if x then h else g) ≡ p g
calls_if true g h p e = sym e
calls_if false g h p e = refl

call_unless :
    (x : Bool) (a b c d : Text) (calls : List (Text × Text))
    → has_call a b (if x then calls else (c, d) ∷ calls)
      ≡ (if x then has_call a b calls else (same_text c a && same_text d b) || has_call a b calls)
unfolding has_call
call_unless true a b c d calls = refl
call_unless false a b c d calls = refl

detached_step :
    (x y p q n : Bool)
    → (q ≡ true → y ≡ true)
    → n ≡ false
    → (if x || y then n else (p && q) || n) ≡ false
detached_step x y p q n h k = ground arith

module _ (a b : Text) where
  called : Graph → Bool
  called g = has_call a b g.calls

  called-upsert_call :
      (c d : Text) (g : Graph) → same_text c a ≡ false → called (upsert_call c d g) ≡ called g
  unfolding upsert_call called
  called-upsert_call c d g h =
      calls_if _ g (record g { calls = g.calls ++ (c, d) ∷ [] }) called
        (sym (appended_call a b c d g.calls h))

  called-link :
      (c : Text) (o : Option Text) (g : Graph)
      → same_text c a ≡ false
      → called (link c o g) ≡ called g
  unfolding link
  called-link c none g h = refl
  called-link c (some d) g h = called-upsert_call c d g h

  called-link_calls :
      (r : Text → Text → Option Text) (calls : List (Text × Text)) (g : Graph)
      → calls_from a calls ≡ false
      → called (link_calls r calls g) ≡ called g
  unfolding link_calls calls_from
  called-link_calls r [] g h = refl
  called-link_calls r ((c, d) ∷ calls) g h =
      called-link_calls r calls (link c (r c d) g) (ground arith)
      ∙ called-link c (r c d) g (ground arith)

  called-link_files :
      (r : SourceFile → Text → Text → Option Text) (fs : List SourceFile) (g : Graph)
      → is_caller a fs ≡ false
      → called (link_files r fs g) ≡ called g
  unfolding link_files is_caller
  called-link_files r [] g h = refl
  called-link_files r (f ∷ fs) g h =
      called-link_files r fs (link_calls (r f) f.calls g) (ground arith)
      ∙ called-link_calls (r f) f.calls g (ground arith)

  detached_call :
      (gone : List Text) (calls : List (Text × Text))
      → mem_text b gone ≡ true
      → has_call a b (detached gone calls) ≡ false
  unfolding detached has_call
  detached_call gone [] h = refl
  detached_call gone ((c, d) ∷ calls) h =
      call_unless (mem_text c gone || mem_text d gone) a b c d (detached gone calls)
      ∙ detached_step (mem_text c gone) (mem_text d gone) (same_text c a) (same_text d b) _
          (λ e. mem_same d b gone e ∙ h) (detached_call gone calls h)

owned_if :
    (y : Bool) (b q : Text) (qs : List Text)
    → mem_text b (if y then q ∷ qs else qs)
      ≡ (if y then same_text b q || mem_text b qs else mem_text b qs)
unfolding mem_text
owned_if true b q qs = refl
owned_if false b q qs = refl

owned_unless :
    (x : Bool) (b q file : Text) (changed : List Text) (d : List (Text × Text))
    → mem_text b (owned changed (if x then d else (q, file) ∷ d)) ≡ (
        if x
        then mem_text b (owned changed d)
        else (if mem_text file changed
            then same_text b q || mem_text b (owned changed d)
            else mem_text b (owned changed d)))
unfolding owned
owned_unless true b q file changed d = refl
owned_unless false b q file changed d = owned_if (mem_text file changed) b q (owned changed d)

owned_here :
    (x y s n : Bool)
    → x ≡ false
    → y ≡ true
    → s ≡ true
    → (if x then n else (if y then s || n else n)) ≡ true
owned_here x y s n p q r = ground arith

owned_there : (x y s n : Bool) → n ≡ true → (if x then n else (if y then s || n else n)) ≡ true
owned_there x y s n p = ground arith

row_cases :
    (h : Bool) (file path : Text) (o : Option Text)
    → (if h then some file else o) ≡ some path
    → ((h ≡ true) × (file ≡ path)) ⊎ (o ≡ some path)
row_cases true file path o e = inl (refl, some_injective file path e)
row_cases false file path o e = inr e

-- A callable of a file that is there and changed is among those that are deleted.
owned_stays :
    (b path : Text) (changed stale : List Text) (d : List (Text × Text))
    → get b d ≡ some path
    → mem_text path stale ≡ false
    → mem_text path changed ≡ true
    → mem_text b (owned changed (without_files stale d)) ≡ true
unfolding owned without_files get mem_text
owned_stays b path changed stale [] g h k = ground arith
owned_stays b path changed stale ((q, file) ∷ d) g h k =
    owned_unless (mem_text file stale) b q file changed (without_files stale d)
    ∙ elim (row_cases (same_text q b) file path (get b d) g) [
      | inl (e, p) ↦
          owned_here (mem_text file stale) (mem_text file changed) (same_text b q) _
            (subst (λ x. mem_text x stale ≡ false) (sym p) h)
            (subst (λ x. mem_text x changed ≡ true) (sym p) k) (same_text_sym b q ∙ e)
      | inr e ↦
          owned_there (mem_text file stale) (mem_text file changed) (same_text b q) _
            (owned_stays b path changed stale d e h k)
    ]

purged_callables : List Text → Graph → List (Text × Text)
purged_callables [] g = g.callables
purged_callables (p ∷ ps) g = without_files (p ∷ ps) g.callables

callables-purge :
    (ps : List Text) (g : Graph) → (purge_stale_files ps g).callables ≡ purged_callables ps g
unfolding purge_stale_files delete_file_subtrees purged_callables
callables-purge [] g = refl
callables-purge (p ∷ ps) g = refl

without_none : (d : List (Text × Text)) → without_files [] d ≡ d
unfolding without_files mem_text
without_none [] = refl
without_none ((q, file) ∷ d) = ap (λ x. (q, file) ∷ x) (without_none d)

purged_without : (ps : List Text) (g : Graph) → purged_callables ps g ≡ without_files ps g.callables
unfolding purged_callables
purged_without [] g = sym (without_none g.callables)
purged_without (p ∷ ps) g = refl

-- The calls of a batch that deletes the callee's file.
purge_detaches :
    (a b : Text) (path : Text) (changed : List Text) (g : Graph)
    → mem_text path changed ≡ true
    → mem_text b (owned changed g.callables) ≡ true
    → has_call a b (purge_stale_files changed g).calls ≡ false
unfolding purge_stale_files delete_file_subtrees mem_text
purge_detaches a b path [] g h k = ground arith
purge_detaches a b path (p ∷ ps) g h k = detached_call a b (owned (p ∷ ps) g.callables) g.calls k

write_detaches :
    (t : Tools) (a b path : Text) (f : SourceFile) (ups : List SourceFile) (changed : List Text)
    (g : Graph)
    → find_file path ups ≡ some f
    → is_caller a ups ≡ false
    → mem_text path changed ≡ true
    → mem_text b (owned changed g.callables) ≡ true
    → has_call a b (write_files t ups changed g).calls ≡ false
unfolding write_files upsert_parsed_files find_file called
write_detaches t a b path f [] changed g e h k m = ground arith
write_detaches t a b path f (u ∷ ups) changed g e h k m =
    called-link_files a b _ (u ∷ ups) _ h ∙ purge_detaches a b path changed g k m

and_false : (x : Bool) → (x && false) ≡ false
and_false x = ground arith

taken : (x n : Bool) (f : SourceFile) → (x && n) ≡ true → (if x then some f else none) ≡ some f
taken true n f h = refl
taken false n f h = absurd (ground arith)

-- A run forgets the calls from files that it does not parse again to functions of a file that it
-- does: when the callee's file was in the graph, is not skipped and parses, and no file that is
-- written again has a call from the caller, then the call is not in the graph after the run.
pub index_repository-forgets_calls :
    (t : Tools) (mode : Mode) (files : List SourceFile) (g : Graph) (a b path : Text)
    (f : SourceFile)
    → IsWalk files
    → find_file path files ≡ some f
    → (takes mode g.files f && is_known f.path g.files) ≡ true
    → get b g.callables ≡ some path
    → is_caller a (walk mode g.files files).to_upsert ≡ false
    → has_call a b (index_repository t mode files g).1.calls ≡ false
unfolding index_repository update_index_version replaced kept is_found
index_repository-forgets_calls t mode files g a b path f w e k m c =
    let p = walk mode g.files files in
    let stale = stale_paths files g.files in
    let changed = changed-walk mode g.files path files w ∙ ap (replaced mode g.files) e ∙ k in
    let fresh =
      mem-stale_paths path files g.files
      ∙ ap (λ x. has_key path g.files && not x) (is_seen-find_file path files ∙ ap is_found e)
      ∙ and_false (has_key path g.files) in
    write_detaches t a b path f p.to_upsert p.changed_paths (purge_stale_files stale g)
      (find_file-walk mode g.files path files w
        ∙ ap (kept mode g.files) e
        ∙ taken (takes mode g.files f) (is_known f.path g.files) f k)
      c changed
      (ap (λ x. mem_text b (owned p.changed_paths x))
          (callables-purge stale g ∙ purged_without stale g)
        ∙ owned_stays b path p.changed_paths stale g.callables m fresh changed)
