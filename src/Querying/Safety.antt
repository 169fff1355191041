-- ===== src/Querying/Safety.antt =====
-- core/src/core/querying/safety.py, and `_ensure_limit` of core/src/core/querying/service.py. A query
-- is a list of code points, of ASCII characters: there `str.upper` and the classes of `re` are those of
-- Prelude/Text.
pub mod Masking
pub mod Pieces
pub mod Guarding
pub mod Limits
mod Examples
use repo_agent.Prelude.{
  ℕ, ◌+◌, String, Bool, true, false, not, ◌&&◌, ◌||◌, Option, none, some, List, [], ◌∷◌, ◌++◌, map,
  ltb, ◌==◌, if◌then◌else◌,
}
use repo_agent.Prelude.Text.{
  codes, is_space, is_word, to_upper, after_prefix, starts_with, skip_spaces, rstrip,
}

abbrev pub newline : ℕ
newline = 10

abbrev pub backslash : ℕ
backslash = 92

abbrev pub space : ℕ
space = 32

unfoldable pub is_quote : ℕ → Bool
is_quote c = c == 39 || (c == 34 || c == 96)

-- Where the scan of `strip_comments_and_strings` stands: outside, or in one of its inner loops.
pub data Mode : Type 0 where
  code line block : Mode
  literal : ℕ → Mode

-- What starts at a character outside, given the next one.
pub data Start : Type 0 where
  starts_line starts_block plain : Start
  starts_literal : Start

unfoldable pub start_of : ℕ → ℕ → Start
unfolding is_quote
start_of c d =
    if c == b'/' && d == b'/'
    then starts_line
    else if c == b'/' && d == b'*'
    then starts_block
    else if is_quote c
    then starts_literal
    else plain

-- What a character in a literal does, given the next one.
pub data Inside : Type 0 where
  skips_two ends skips_one : Inside

unfoldable pub inside_of : ℕ → ℕ → ℕ → Inside
inside_of quote c d =
    if c == backslash
    then skips_two
    else if c == quote
    then (if d == quote then skips_two else ends)
    else skips_one

-- The last character of the text, outside.
last_outside : ℕ → List ℕ
unfolding is_quote
last_outside c = if is_quote c then space ∷ [] else c ∷ []

unfoldable pub strip : Mode → List ℕ → List ℕ
unfolding start_of inside_of last_outside
strip code [] = []
strip code (c ∷ []) = last_outside c
strip code (c ∷ d ∷ s) = elim (start_of c d) [
  | starts_line ↦ strip line s
  | starts_block ↦ strip block s
  | starts_literal ↦ strip (literal c) (d ∷ s)
  | plain ↦ c ∷ strip code (d ∷ s)
]
strip line [] = []
strip line (c ∷ s) = elim (c == newline) [ true ↦ c ∷ strip code s | false ↦ strip line s ]
strip block [] = []
strip block (c ∷ []) = []
strip block (c ∷ d ∷ s) = elim (c == b'*' && d == b'/') [
  | true ↦ strip code s
  | false ↦ strip block (d ∷ s)
]
strip (literal q) [] = space ∷ []
strip (literal q) (c ∷ []) = space ∷ []
strip (literal q) (c ∷ d ∷ s) = elim (inside_of q c d) [
  | skips_two ↦ strip (literal q) s
  | ends ↦ space ∷ strip code (d ∷ s)
  | skips_one ↦ strip (literal q) (d ∷ s)
]

unfoldable pub strip_comments_and_strings : List ℕ → List ℕ
unfolding strip
strip_comments_and_strings cypher = strip code cypher

unfoldable pub normalize_cypher : List ℕ → List ℕ
unfolding to_upper strip_comments_and_strings
normalize_cypher cypher = map to_upper (strip_comments_and_strings cypher)

-- The regular expressions in use: \bWORD\b, and \bWORD\s+REST with or without a final \b.
pub record Pattern : Type 0 where
  pub word : List ℕ
  pub rest : Option (List ℕ)
  pub boundary : Bool

starts_word : List ℕ → Bool
starts_word [] = false
starts_word (c ∷ s) = is_word c

at_end : Bool → Option (List ℕ) → Bool
unfolding starts_word
at_end boundary none = false
at_end boundary (some s) = if boundary then not (starts_word s) else true

after_spaces : List ℕ → Option (List ℕ) → Option (List ℕ)
unfolding is_space after_prefix skip_spaces
after_spaces rest none = none
after_spaces rest (some []) = none
after_spaces rest (some (c ∷ s)) = if is_space c then after_prefix rest (skip_spaces s) else none

after_rest : Option (List ℕ) → Option (List ℕ) → Option (List ℕ)
unfolding after_spaces
after_rest none found = found
after_rest (some rest) found = after_spaces rest found

-- Does the pattern, past its first \b, match at the start of the text?
unfoldable pub matches : Pattern → List ℕ → Bool
unfolding at_end after_rest after_prefix
matches p s = at_end p.boundary (after_rest p.rest (after_prefix p.word s))

unfoldable pub hits : Pattern → (List ℕ → Bool) → Bool → List ℕ → Bool
unfolding matches
hits p keep inner s = not inner && (matches p s && keep s)

-- Where a pattern first matches and `keep` holds of the text from there on, counted from `i`; `inner`
-- says whether a word character stands in front.
unfoldable pub search_from : Pattern → (List ℕ → Bool) → ℕ → Bool → List ℕ → Option (ℕ × List ℕ)
unfolding hits
search_from p keep i inner [] = none
search_from p keep i inner (c ∷ s) = elim (hits p keep inner (c ∷ s)) [
  | true ↦ some (i, c ∷ s)
  | false ↦ search_from p keep (i + 1) (is_word c) s
]

pub record Clause : Type 0 where
  pub name : String
  pub pattern : Pattern
  pub keep : List ℕ → Bool

abbrev pub anywhere : List ℕ → Bool
anywhere s = true

abbrev pub word_clause : String → Clause
word_clause w = record {
  name = w;
  pattern = record { word = codes w; rest = none; boundary = true };
  keep = anywhere;
}

-- The two procedures that `guard_readonly` lets pass.
unfoldable pub is_forbidden_call : List ℕ → Bool
unfolding starts_with
is_forbidden_call s = not (
    starts_with (codes "CALL DB.INDEX.FULLTEXT.QUERYNODES") s
    || starts_with (codes "CALL DB.INDEX.VECTOR.QUERYNODES") s)

-- WRITE_CLAUSES, with the exception for `CALL db.*`.
abbrev pub write_clauses : List Clause
write_clauses =
    word_clause "CREATE"
    ∷ word_clause "MERGE"
    ∷ word_clause "DELETE"
    ∷ word_clause "DETACH"
    ∷ word_clause "SET"
    ∷ word_clause "REMOVE"
    ∷ word_clause "DROP"
    ∷ record {
      name = "CALL db.*";
      pattern = record { word = codes "CALL"; rest = some (codes "DB."); boundary = false };
      keep = is_forbidden_call;
    }
    ∷ record {
      name = "LOAD CSV";
      pattern = record { word = codes "LOAD"; rest = some (codes "CSV"); boundary = true };
      keep = anywhere;
    }
    ∷ []

earlier : Option (ℕ × String) → String → Option (ℕ × List ℕ) → Option (ℕ × String)
earlier earliest name none = earliest
earlier none name (some (i, s)) = some (i, name)
earlier (some (j, old)) name (some (i, s)) = if ltb i j then some (i, name) else some (j, old)

-- The loop over the clauses.
unfoldable pub earliest_clause : List Clause → List ℕ → Option (ℕ × String) → Option (ℕ × String)
unfolding search_from earlier
earliest_clause [] text earliest = earliest
earliest_clause (c ∷ cs) text earliest =
    earliest_clause cs text (earlier earliest c.name (search_from c.pattern c.keep 0 false text))

pub data Guarded : Type 0 where
  accepted : List ℕ → Guarded
  rejected : String → Guarded

verdict : List ℕ → Option (ℕ × String) → Guarded
verdict cypher none = accepted cypher
verdict cypher (some (i, name)) = rejected name

unfoldable pub guard_readonly : List ℕ → Guarded
unfolding verdict earliest_clause normalize_cypher
guard_readonly cypher =
    verdict cypher (earliest_clause write_clauses (normalize_cypher cypher) none)

abbrev pub limit_pattern : Pattern
limit_pattern = record { word = codes "LIMIT"; rest = none; boundary = true }

is_found : Option (ℕ × List ℕ) → Bool
is_found none = false
is_found (some m) = true

unfoldable pub has_limit : List ℕ → Bool
unfolding is_found search_from normalize_cypher
has_limit cypher = is_found (search_from limit_pattern anywhere 0 false (normalize_cypher cypher))

-- What stands in front of the text's last character, if that is a semicolon.
before_semicolon : List ℕ → Option (List ℕ)
before_semicolon [] = none
before_semicolon (c ∷ []) = if c == b';' then some [] else none
before_semicolon (c ∷ d ∷ s) = elim (before_semicolon (d ∷ s)) [
  | none ↦ none
  | some t ↦ some (c ∷ t)
]

rstrip_or : List ℕ → Option (List ℕ) → List ℕ
unfolding rstrip
rstrip_or s none = s
rstrip_or s (some t) = rstrip t

unfoldable pub trimmed : List ℕ → List ℕ
unfolding rstrip before_semicolon rstrip_or
trimmed cypher = rstrip_or (rstrip cypher) (before_semicolon (rstrip cypher))

-- What `_ensure_limit` appends, with DEFAULT_RESULT_LIMIT.
abbrev pub limit_clause : List ℕ
limit_clause = codes " LIMIT 200"

unfoldable pub ensure_limit : List ℕ → List ℕ × Bool
unfolding has_limit trimmed
ensure_limit cypher =
    if has_limit cypher then (cypher, false) else (trimmed cypher ++ limit_clause, true)
