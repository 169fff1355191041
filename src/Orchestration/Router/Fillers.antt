-- ===== src/Orchestration/Router/Fillers.antt =====
-- core/src/core/orchestration/router.py: the words of a query that are no names.
use repo_agent.Prelude.{List, [], ◌∷◌}
use repo_agent.Prelude.Text.{codes}
use repo_agent.Prelude.Words.{Text}

abbrev pub lookup_filler : List Text
lookup_filler =
    codes "a"
    ∷ codes "an"
    ∷ codes "and"
    ∷ codes "are"
    ∷ codes "as"
    ∷ codes "at"
    ∷ codes "be"
    ∷ codes "by"
    ∷ codes "class"
    ∷ codes "classes"
    ∷ codes "compare"
    ∷ codes "depend"
    ∷ codes "dependent"
    ∷ codes "dependents"
    ∷ codes "depends"
    ∷ codes "does"
    ∷ codes "explain"
    ∷ codes "file"
    ∷ codes "files"
    ∷ codes "find"
    ∷ codes "for"
    ∷ codes "from"
    ∷ codes "function"
    ∷ codes "functions"
    ∷ codes "how"
    ∷ codes "inherit"
    ∷ codes "inherits"
    ∷ codes "is"
    ∷ codes "its"
    ∷ codes "list"
    ∷ codes "method"
    ∷ codes "methods"
    ∷ codes "module"
    ∷ codes "modules"
    ∷ codes "of"
    ∷ codes "on"
    ∷ codes "please"
    ∷ codes "show"
    ∷ codes "the"
    ∷ codes "then"
    ∷ codes "this"
    ∷ codes "what"
    ∷ codes "where"
    ∷ codes "who"
    ∷ codes "why"
    ∷ []

abbrev pub identifier_filler_exceptions : List Text
identifier_filler_exceptions =
    codes "class"
    ∷ codes "classes"
    ∷ codes "depend"
    ∷ codes "dependent"
    ∷ codes "dependents"
    ∷ codes "depends"
    ∷ codes "file"
    ∷ codes "files"
    ∷ codes "function"
    ∷ codes "functions"
    ∷ codes "inherit"
    ∷ codes "inherits"
    ∷ codes "method"
    ∷ codes "methods"
    ∷ codes "module"
    ∷ codes "modules"
    ∷ []
