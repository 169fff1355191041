-- ===== src/Querying/Safety/Examples.antt =====
-- Queries that are let pass and that are not.
use repo_agent.Prelude.{ℕ, ◌≡◌, refl, false, List, [], ◌∷◌, ◌++◌, map}
use repo_agent.Prelude.Text.{codes, is_word, to_upper}
use repo_agent.Querying.Safety.{
  code, line, strip_comments_and_strings, has_limit, trimmed, ensure_limit, accepted, rejected,
  guard_readonly, is_forbidden_call,
}
use repo_agent.Querying.Safety.Guarding.{
  Decides, guard_readonly-Decides, named, guard_readonly-joins,
}
use repo_agent.Querying.Safety.Pieces.{
  unescaped, doubled, Piece, other, block_comment, quoted, nothing, open_comment, render, masked,
  is_well_formed,
}
use repo_agent.Querying.Safety.Limits.{end_mode, ensure_limit-commented}

abbrev reading : List ℕ
reading = codes "MATCH (n) WHERE n.t = 'SET' RETURN n"

abbrev writing : List ℕ
writing = codes "match (n) set n.x = 1"

abbrev remarked : List ℕ
remarked = codes "RETURN 1 // all"

literal_passes : guard_readonly reading ≡ accepted reading
unfolding guard_readonly is_word is_forbidden_call
literal_passes = refl

writing_stopped : guard_readonly writing ≡ rejected "SET"
unfolding guard_readonly is_word is_forbidden_call
writing_stopped = refl

index_call_passes :
    guard_readonly (codes "call db.index.vector.queryNodes(1)")
    ≡ accepted (codes "call db.index.vector.queryNodes(1)")
unfolding guard_readonly is_word is_forbidden_call
index_call_passes = refl

procedures_stopped : guard_readonly (codes "CALL db.labels()") ≡ rejected "CALL db.*"
unfolding guard_readonly is_word is_forbidden_call
procedures_stopped = refl

others : List ℕ → List Piece
others [] = []
others (c ∷ s) = other c ∷ others s

-- match (n) /* all */ set n.x = 'it''s' // done
abbrev writing_pieces : List Piece
unfolding others
writing_pieces =
    others (codes "match (n) ")
    ++ block_comment (codes " all ") ∷ others (codes " set n.x = ")
    ++ quoted 39 (unescaped 105 ∷ unescaped 116 ∷ doubled ∷ unescaped 115 ∷ []) ∷ other 32 ∷ []

writing_IsRendered :
    render writing_pieces (open_comment (codes " done"))
    ≡ codes "match (n) /* all */ set n.x = 'it''s' // done"
unfolding render others
writing_IsRendered = refl

guard_readonly-Decides_example :
    Decides
      (map to_upper (masked writing_pieces))
      (render writing_pieces (open_comment (codes " done")))
      (guard_readonly (render writing_pieces (open_comment (codes " done"))))
unfolding is_well_formed others
guard_readonly-Decides_example =
    guard_readonly-Decides writing_pieces (open_comment (codes " done")) refl

-- The word SET is set off by a comment alone.
abbrev set_off : List ℕ
set_off = codes "MATCH (n) WITH n/**/SET n.x = 1 RETURN n"

set_off_passes : guard_readonly set_off ≡ accepted set_off
unfolding guard_readonly is_word is_forbidden_call
set_off_passes = refl

spaced_stopped : guard_readonly (codes "MATCH (n) WITH n SET n.x = 1 RETURN n") ≡ rejected "SET"
unfolding guard_readonly is_word is_forbidden_call
spaced_stopped = refl

abbrev before_comment : List Piece
unfolding others
before_comment = others (codes "MATCH (n) WITH n")

abbrev after_comment : List Piece
unfolding others
after_comment = others (codes "SET n.x = 1 RETURN n")

guard_readonly-joins_example :
    named (guard_readonly (render (before_comment ++ block_comment [] ∷ after_comment) nothing))
    ≡ named (guard_readonly (render (before_comment ++ after_comment) nothing))
unfolding is_well_formed others
guard_readonly-joins_example =
    guard_readonly-joins before_comment after_comment [] nothing refl refl

-- A property of the name `limit` is taken for a clause, and the query gets none.
abbrev limit_property : List ℕ
limit_property = codes "MATCH (n) RETURN n.limit"

limit_property_uncapped : ensure_limit limit_property ≡ (limit_property, false)
unfolding ensure_limit is_word
limit_property_uncapped = refl

remarked_unlimited : has_limit remarked ≡ false
unfolding has_limit is_word
remarked_unlimited = refl

remarked_inside : end_mode code (trimmed remarked) ≡ line
unfolding end_mode trimmed
remarked_inside = refl

ensure_limit-commented_example :
    strip_comments_and_strings (ensure_limit remarked).0
    ≡ strip_comments_and_strings (trimmed remarked)
ensure_limit-commented_example = ensure_limit-commented remarked remarked_unlimited remarked_inside
