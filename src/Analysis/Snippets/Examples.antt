-- ===== src/Analysis/Snippets/Examples.antt =====
-- A file of six lines.
use repo_agent.Prelude.{ℕ, ◌≡◌, refl, List, [], ◌∷◌, ◌++◌}
use repo_agent.Prelude.Int.{pos, negsuc}
use repo_agent.Prelude.Text.{codes}
use repo_agent.Analysis.Snippets.{snippet_lines, get_snippet}

abbrev six_lines : List ℕ
six_lines = 10 ∷ 20 ∷ 30 ∷ 40 ∷ 50 ∷ 60 ∷ []

middle_lines :
    snippet_lines six_lines (pos 3) (pos 4) (pos 1) ≡ (2, 20) ∷ (3, 30) ∷ (4, 40) ∷ (5, 50) ∷ []
unfolding snippet_lines
middle_lines = refl

two_numbered :
    get_snippet (codes "a" ∷ codes "b" ∷ []) (pos 1) (pos 9) (negsuc 0)
    ≡ codes "   1 a" ++ 10 ∷ codes "   2 b"
unfolding get_snippet
two_numbered = refl
