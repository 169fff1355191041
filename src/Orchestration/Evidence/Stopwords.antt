-- ===== src/Orchestration/Evidence/Stopwords.antt =====
-- core/src/core/orchestration/evidence.py: the words that no refinement searches for.
use repo_agent.Prelude.{List, [], ◌∷◌}
use repo_agent.Prelude.Text.{codes}
use repo_agent.Prelude.Words.{Text}

abbrev pub refinement_stopwords : List Text
refinement_stopwords =
    codes "about"
    ∷ codes "across"
    ∷ codes "all"
    ∷ codes "also"
    ∷ codes "any"
    ∷ codes "been"
    ∷ codes "being"
    ∷ codes "both"
    ∷ codes "but"
    ∷ codes "can"
    ∷ codes "code"
    ∷ codes "codebase"
    ∷ codes "could"
    ∷ codes "did"
    ∷ codes "do"
    ∷ codes "done"
    ∷ codes "each"
    ∷ codes "example"
    ∷ codes "examples"
    ∷ codes "few"
    ∷ codes "get"
    ∷ codes "give"
    ∷ codes "got"
    ∷ codes "had"
    ∷ codes "handle"
    ∷ codes "handles"
    ∷ codes "handling"
    ∷ codes "has"
    ∷ codes "have"
    ∷ codes "implementation"
    ∷ codes "implemented"
    ∷ codes "in"
    ∷ codes "injection"
    ∷ codes "into"
    ∷ codes "it"
    ∷ codes "just"
    ∷ codes "like"
    ∷ codes "made"
    ∷ codes "make"
    ∷ codes "me"
    ∷ codes "more"
    ∷ codes "most"
    ∷ codes "need"
    ∷ codes "not"
    ∷ codes "off"
    ∷ codes "only"
    ∷ codes "or"
    ∷ codes "other"
    ∷ codes "out"
    ∷ codes "over"
    ∷ codes "request"
    ∷ codes "same"
    ∷ codes "should"
    ∷ codes "snippet"
    ∷ codes "some"
    ∷ codes "source"
    ∷ codes "such"
    ∷ codes "tell"
    ∷ codes "than"
    ∷ codes "that"
    ∷ codes "their"
    ∷ codes "them"
    ∷ codes "these"
    ∷ codes "those"
    ∷ codes "to"
    ∷ codes "under"
    ∷ codes "use"
    ∷ codes "used"
    ∷ codes "using"
    ∷ codes "validation"
    ∷ codes "via"
    ∷ codes "want"
    ∷ codes "was"
    ∷ codes "we"
    ∷ codes "were"
    ∷ codes "with"
    ∷ codes "work"
    ∷ codes "working"
    ∷ codes "works"
    ∷ codes "would"
    ∷ codes "you"
    ∷ codes "your"
    ∷ []
