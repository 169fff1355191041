-- ===== src/Querying/Lucene.antt =====
-- core/src/core/querying/service.py, lucene_query and proper_noun_tokens. Texts are ASCII; a token of
-- _TOKEN_RE has no character that _escape_lucene changes.
use repo_agent.Prelude.{
  ℕ, Bool, true, false, not, ◌&&◌, ◌||◌, List, [], ◌∷◌, ◌++◌, map, ◌==◌, if◌then◌else◌,
}
use repo_agent.Prelude.Text.{codes, is_upper, is_lower, is_digit, is_word}
use repo_agent.Prelude.Words.{Text, lower, strip, mem_text}

-- [A-Za-z_]
starts_token : ℕ → Bool
unfolding is_word is_digit
starts_token c = is_word c && not (is_digit c)

all_of : (ℕ → Bool) → Text → Bool
all_of p [] = true
all_of p (c ∷ s) = p c && all_of p s

-- _IDENTIFIER_RE
unfoldable pub is_identifier : Text → Bool
unfolding starts_token all_of is_word
is_identifier [] = false
is_identifier (c ∷ s) = starts_token c && all_of (λ d. is_word d || d == b'.') s

-- A character in front of the first run.
put_first : ℕ → List Text → List Text
put_first c [] = (c ∷ []) ∷ []
put_first c (r ∷ rs) = (c ∷ r) ∷ rs

-- The runs of word characters; the first is the one that the text begins with, perhaps empty.
runs : Text → List Text
unfolding is_word put_first
runs [] = [] ∷ []
runs (c ∷ s) = let rest = runs s in if is_word c then put_first c rest else [] ∷ rest

drop_digits : Text → Text
unfolding is_digit
drop_digits [] = []
drop_digits (c ∷ s) = let rest = drop_digits s in if is_digit c then rest else c ∷ s

-- Of more than one character.
long_enough : Text → Bool
long_enough [] = false
long_enough (c ∷ []) = false
long_enough (c ∷ d ∷ s) = true

filter : (Text → Bool) → List Text → List Text
filter p [] = []
filter p (t ∷ ts) = let rest = filter p ts in if p t then t ∷ rest else rest

-- [token for token in _TOKEN_RE.findall(text) if len(token) > 1]
unfoldable pub tokens : Text → List Text
unfolding runs drop_digits long_enough filter
tokens text = filter long_enough (map drop_digits (runs text))

-- The tokens whose lower case is new.
unfoldable pub unique_tokens : List Text → List Text → List Text
unfolding mem_text lower
unique_tokens [] seen = []
unique_tokens (t ∷ ts) seen =
    let rest = unique_tokens ts (lower t ∷ seen) in
    let kept = unique_tokens ts seen in if mem_text (lower t) seen then kept else t ∷ rest

abbrev pub lucene_stopwords : List Text
lucene_stopwords =
    codes "a"
    ∷ codes "an"
    ∷ codes "and"
    ∷ codes "are"
    ∷ codes "as"
    ∷ codes "at"
    ∷ codes "be"
    ∷ codes "by"
    ∷ codes "can"
    ∷ codes "codebase"
    ∷ codes "does"
    ∷ codes "example"
    ∷ codes "examples"
    ∷ codes "for"
    ∷ codes "from"
    ∷ codes "how"
    ∷ codes "i"
    ∷ codes "in"
    ∷ codes "implementation"
    ∷ codes "implemented"
    ∷ codes "is"
    ∷ codes "it"
    ∷ codes "me"
    ∷ codes "my"
    ∷ codes "of"
    ∷ codes "on"
    ∷ codes "or"
    ∷ codes "please"
    ∷ codes "repository"
    ∷ codes "show"
    ∷ codes "snippet"
    ∷ codes "snippets"
    ∷ codes "source"
    ∷ codes "the"
    ∷ codes "this"
    ∷ codes "to"
    ∷ codes "we"
    ∷ codes "what"
    ∷ codes "where"
    ∷ codes "who"
    ∷ codes "why"
    ∷ codes "with"
    ∷ codes "work"
    ∷ codes "works"
    ∷ codes "you"
    ∷ []

abbrev pub sentence_starters : List Text
sentence_starters =
    codes "compare"
    ∷ codes "describe"
    ∷ codes "explain"
    ∷ codes "find"
    ∷ codes "list"
    ∷ codes "reindex"
    ∷ codes "show"
    ∷ []

-- [a-z]+[A-Z][A-Za-z0-9]* behind the first character.
lower_camel : Text → Bool
unfolding is_upper is_lower is_digit all_of
lower_camel [] = false
lower_camel (c ∷ s) =
    if is_lower c
    then lower_camel s
    else is_upper c && all_of (λ d. is_upper d || (is_lower d || is_digit d)) s

-- The token behind its first word: a dot and at least one character of a dotted path.
dotted_rest : Text → Bool
unfolding is_word all_of long_enough
dotted_rest [] = false
dotted_rest (c ∷ s) =
    if c == b'.'
    then long_enough (c ∷ s) && all_of (λ d. is_word d || d == b'.') s
    else is_word c && dotted_rest s

-- _PROPER_TOKEN_RE
unfoldable pub is_proper : Text → Bool
unfolding is_upper is_lower starts_token all_of long_enough lower_camel dotted_rest is_word
is_proper [] = false
is_proper (c ∷ s) =
    (is_upper c && (long_enough (c ∷ s) && all_of is_word s))
    || ((is_lower c && lower_camel s) || (starts_token c && dotted_rest s))

unfoldable pub proper_noun_tokens : Text → List Text
unfolding tokens filter is_proper unique_tokens mem_text lower
proper_noun_tokens text =
    unique_tokens
      (filter
        (λ t.
          not (mem_text (lower t) lucene_stopwords || mem_text (lower t) sentence_starters)
          && is_proper t)
        (tokens text))
      []

mem_code : ℕ → Text → Bool
mem_code c [] = false
mem_code c (d ∷ s) = c == d || mem_code c s

-- _LUCENE_SPECIAL, but for the pairs.
is_special : ℕ → Bool
unfolding mem_code
is_special c = mem_code c (codes "+-!(){}[]^\"~*?:\\/")

-- && or ||
is_pair : ℕ → ℕ → Bool
is_pair c d = (c == b'&' && d == b'&') || (c == b'|' && d == b'|')

-- Each match of _LUCENE_SPECIAL gets a backslash; `inside` is set behind the first half of a pair.
unfoldable pub escape_from : Bool → Text → Text
unfolding is_special is_pair
escape_from inside [] = []
escape_from true (c ∷ s) = c ∷ escape_from false s
escape_from false (c ∷ []) = if is_special c then 92 ∷ c ∷ [] else c ∷ []
escape_from false (c ∷ d ∷ s) =
    let in_pair = escape_from true (d ∷ s) in
    let after = escape_from false (d ∷ s) in
    if is_special c then 92 ∷ c ∷ after else if is_pair c d then 92 ∷ c ∷ in_pair else c ∷ after

unfoldable pub escape_lucene : Text → Text
unfolding escape_from
escape_lucene token = escape_from false token

unfoldable pub quoted : Text → Text
quoted t = 34 ∷ (t ++ 34 ∷ [])

unfoldable pub proper_noun_clause : Text → Text
unfolding quoted
proper_noun_clause token =
    codes "(name:"
    ++ (quoted token
        ++ (codes " OR qualified_name:"
            ++ (quoted token ++ (codes " OR " ++ (token ++ codes ")")))))

unfoldable pub joined_by : Text → List Text → Text
joined_by sep [] = []
joined_by sep (t ∷ []) = t
joined_by sep (t ∷ u ∷ ts) = t ++ (sep ++ joined_by sep (u ∷ ts))

-- The entries joined, in parentheses if there are several; no clause if there is none.
clause : Text → List Text → List Text
unfolding joined_by
clause sep [] = []
clause sep (t ∷ []) = t ∷ []
clause sep (t ∷ u ∷ ts) = (codes "(" ++ (joined_by sep (t ∷ u ∷ ts) ++ codes ")")) ∷ []

unfoldable pub clauses_of : List Text → Text
unfolding filter clause joined_by proper_noun_clause is_proper mem_text lower
clauses_of content =
    let must = filter (λ t. is_proper t && not (mem_text (lower t) sentence_starters)) content in
    let should = filter (λ t. not (mem_text t must)) content in
    joined_by (codes " AND ")
      (clause (codes " AND ") (map proper_noun_clause must) ++ clause (codes " OR ") should)

unfoldable pub lucene_query : Text → Text
unfolding is_identifier escape_lucene quoted tokens unique_tokens filter clauses_of strip lower
    mem_text
lucene_query text =
    let stripped = strip text in
    if is_identifier stripped
    then codes "name:"
      ++ (quoted (escape_lucene stripped)
          ++ (codes " OR qualified_name:" ++ quoted (escape_lucene stripped)))
    else clauses_of (
        filter (λ t. not (mem_text (lower t) lucene_stopwords))
          (unique_tokens (tokens stripped) []))
