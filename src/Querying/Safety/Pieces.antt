-- ===== src/Querying/Safety/Pieces.antt =====
-- core/src/core/querying/safety.py: what a query is made of, and what `strip_comments_and_strings`
-- leaves of it.
use repo_agent.Prelude.{
  ℕ, ◌≡◌, refl, sym, ap, ◌∙◌, Bool, true, false, not, ◌&&◌, ◌||◌, List, [], ◌∷◌, ◌++◌, arith, ◌==◌,
}
use repo_agent.Querying.Safety.{
  newline, backslash, space, is_quote, code, line, block, literal, starts_literal, plain, start_of,
  skips_two, ends, skips_one, inside_of, last_outside, strip, strip_comments_and_strings,
}

-- What stands between the quotes of a literal: a character, one behind a backslash, or the quote
-- itself, written twice.
pub data Inner : Type 0 where
  unescaped escaped : ℕ → Inner
  doubled : Inner

-- A character outside; a line comment up to its newline; a block comment; a literal or a quoted
-- identifier, with its quote.
pub data Piece : Type 0 where
  other : ℕ → Piece
  line_comment block_comment : List ℕ → Piece
  quoted : ℕ → List Inner → Piece

-- How a query ends: after its last piece, or in a line comment.
pub data Finish : Type 0 where
  nothing : Finish
  open_comment : List ℕ → Finish

unfoldable inner_text : ℕ → List Inner → List ℕ → List ℕ
inner_text q [] rest = q ∷ rest
inner_text q (unescaped c ∷ inner) rest = c ∷ inner_text q inner rest
inner_text q (escaped c ∷ inner) rest = backslash ∷ c ∷ inner_text q inner rest
inner_text q (doubled ∷ inner) rest = q ∷ q ∷ inner_text q inner rest

-- The text of a query.
unfoldable pub render : List Piece → Finish → List ℕ
unfolding inner_text
render [] nothing = []
render [] (open_comment s) = b'/' ∷ b'/' ∷ s
render (other c ∷ pieces) f = c ∷ render pieces f
render (line_comment s ∷ pieces) f = b'/' ∷ b'/' ∷ s ++ newline ∷ render pieces f
render (block_comment s ∷ pieces) f = b'/' ∷ b'*' ∷ s ++ b'*' ∷ b'/' ∷ render pieces f
render (quoted q inner ∷ pieces) f = q ∷ inner_text q inner (render pieces f)

-- The query with a newline for a line comment, a space for a literal, and nothing for a block
-- comment.
unfoldable pub masked : List Piece → List ℕ
masked [] = []
masked (other c ∷ pieces) = c ∷ masked pieces
masked (line_comment s ∷ pieces) = newline ∷ masked pieces
masked (block_comment s ∷ pieces) = masked pieces
masked (quoted q inner ∷ pieces) = space ∷ masked pieces

opens_comment : ℕ → List ℕ → Bool
opens_comment c [] = false
opens_comment c (d ∷ s) = c == b'/' && (d == b'/' || d == b'*')

has_close : List ℕ → Bool
has_close [] = false
has_close (c ∷ []) = false
has_close (c ∷ d ∷ s) = (c == b'*' && d == b'/') || has_close (d ∷ s)

has_newline : List ℕ → Bool
has_newline [] = false
has_newline (c ∷ s) = c == newline || has_newline s

begins_with : ℕ → List ℕ → Bool
begins_with q [] = false
begins_with q (c ∷ s) = c == q

are_inner : ℕ → List Inner → Bool
are_inner q [] = true
are_inner q (unescaped c ∷ inner) = not (c == q) && (not (c == backslash) && are_inner q inner)
are_inner q (escaped c ∷ inner) = are_inner q inner
are_inner q (doubled ∷ inner) = are_inner q inner

-- Does each piece stand for what it is? No quote and no start of a comment is a character outside, no
-- line comment holds a newline, no block comment its own end, and no literal its quote or a backslash
-- but as an escape; a quote right behind a literal would belong to it.
unfoldable pub is_well_formed : List Piece → Finish → Bool
unfolding render is_quote opens_comment has_close has_newline begins_with are_inner
is_well_formed [] nothing = true
is_well_formed [] (open_comment s) = not (has_newline s)
is_well_formed (other c ∷ pieces) f =
    not (is_quote c) && (not (opens_comment c (render pieces f)) && is_well_formed pieces f)
is_well_formed (line_comment s ∷ pieces) f = not (has_newline s) && is_well_formed pieces f
is_well_formed (block_comment s ∷ pieces) f = not (has_close s) && is_well_formed pieces f
is_well_formed (quoted q inner ∷ pieces) f =
    is_quote q
    && (are_inner q inner && (not (begins_with q (render pieces f)) && is_well_formed pieces f))

both_true : (x y : Bool) → (x && y) ≡ true → (x ≡ true) × (y ≡ true)
both_true x y h = ground arith

neither_true : (x y : Bool) → not (x || y) ≡ true → (x ≡ false) × (not y ≡ true)
neither_true x y h = ground arith

is_false : (x : Bool) → not x ≡ true → x ≡ false
is_false x h = ground arith

strip-open : (s : List ℕ) → not (has_newline s) ≡ true → strip line s ≡ []
unfolding strip has_newline
strip-open [] h = refl
strip-open (c ∷ s) h =
    let (n, k) = neither_true (c == newline) (has_newline s) h in rw (n, strip) (strip-open s k)

strip-line :
    (s r : List ℕ)
    → not (has_newline s) ≡ true
    → strip line (s ++ newline ∷ r) ≡ newline ∷ strip code r
unfolding strip has_newline
strip-line [] r h = refl
strip-line (c ∷ s) r h =
    let (n, k) = neither_true (c == newline) (has_newline s) h in rw (n, strip) (strip-line s r k)

no_star : (c : ℕ) → (c == b'*' && b'*' == b'/') ≡ false
no_star c = ground arith

strip-block :
    (s r : List ℕ) → not (has_close s) ≡ true → strip block (s ++ b'*' ∷ b'/' ∷ r) ≡ strip code r
unfolding strip has_close
strip-block [] r h = refl
strip-block (c ∷ []) r h = rw (no_star c, strip) refl
strip-block (c ∷ d ∷ s) r h =
    let (n, k) = neither_true (c == b'*' && d == b'/') (has_close (d ∷ s)) h in
    rw (n, strip) (strip-block (d ∷ s) r k)

is_filled : List ℕ → Bool
is_filled [] = false
is_filled (c ∷ s) = true

inner_text-is_filled :
    (q : ℕ) (inner : List Inner) (r : List ℕ) → is_filled (inner_text q inner r) ≡ true
unfolding inner_text is_filled
inner_text-is_filled q [] r = refl
inner_text-is_filled q (unescaped c ∷ inner) r = refl
inner_text-is_filled q (escaped c ∷ inner) r = refl
inner_text-is_filled q (doubled ∷ inner) r = refl

skipped :
    (q c d : ℕ) → not (c == q) ≡ true → not (c == backslash) ≡ true → inside_of q c d ≡ skips_one
unfolding inside_of
skipped q c d h k = ground arith

strip-unescaped :
    (q c : ℕ) (t : List ℕ)
    → not (c == q) ≡ true
    → not (c == backslash) ≡ true
    → is_filled t ≡ true
    → strip (literal q) (c ∷ t) ≡ strip (literal q) t
unfolding strip is_filled
strip-unescaped q c [] h k f = absurd (ground arith)
strip-unescaped q c (d ∷ t) h k f = rw (skipped q c d h k, strip) refl

doubles : (q : ℕ) → is_quote q ≡ true → inside_of q q q ≡ skips_two
unfolding inside_of is_quote
doubles q h = ground arith

closes : (q d : ℕ) → is_quote q ≡ true → (d == q) ≡ false → inside_of q q d ≡ ends
unfolding inside_of is_quote
closes q d h k = ground arith

strip-close :
    (q : ℕ) (r : List ℕ)
    → is_quote q ≡ true
    → not (begins_with q r) ≡ true
    → strip (literal q) (q ∷ r) ≡ space ∷ strip code r
unfolding strip begins_with
strip-close q [] h k = refl
strip-close q (d ∷ r) h k = rw (closes q d h (is_false (d == q) k), strip) refl

strip-literal :
    (q : ℕ) (inner : List Inner) (r : List ℕ)
    → is_quote q ≡ true
    → are_inner q inner ≡ true
    → not (begins_with q r) ≡ true
    → strip (literal q) (inner_text q inner r) ≡ space ∷ strip code r
unfolding inner_text are_inner strip
strip-literal q [] r h a k = strip-close q r h k
strip-literal q (unescaped c ∷ inner) r h a k =
    let (n, a') = both_true (not (c == q)) _ a in
    let (m, a'') = both_true (not (c == backslash)) _ a' in
    strip-unescaped q c (inner_text q inner r) n m (inner_text-is_filled q inner r)
    ∙ strip-literal q inner r h a'' k
strip-literal q (escaped c ∷ inner) r h a k = strip-literal q inner r h a k
strip-literal q (doubled ∷ inner) r h a k = rw (doubles q h, strip) (strip-literal q inner r h a k)

plain_start :
    (c d : ℕ) (s : List ℕ)
    → not (is_quote c) ≡ true
    → not (opens_comment c (d ∷ s)) ≡ true
    → start_of c d ≡ plain
unfolding start_of opens_comment
plain_start c d s h k = ground arith

last_plain : (c : ℕ) → not (is_quote c) ≡ true → last_outside c ≡ c ∷ []
unfolding last_outside
last_plain c h = ground arith

strip-other :
    (c : ℕ) (r : List ℕ)
    → not (is_quote c) ≡ true
    → not (opens_comment c r) ≡ true
    → strip code (c ∷ r) ≡ c ∷ strip code r
unfolding strip
strip-other c [] h k = last_plain c h
strip-other c (d ∷ r) h k = rw (plain_start c d r h k, strip) refl

literal_start : (c d : ℕ) → is_quote c ≡ true → start_of c d ≡ starts_literal
unfolding start_of is_quote
literal_start c d h = ground arith

strip-quote :
    (c : ℕ) (t : List ℕ)
    → is_quote c ≡ true
    → is_filled t ≡ true
    → strip code (c ∷ t) ≡ strip (literal c) t
unfolding strip is_filled
strip-quote c [] h f = absurd (ground arith)
strip-quote c (d ∷ t) h f = rw (literal_start c d h, strip) refl

strip-render :
    (pieces : List Piece) (f : Finish)
    → is_well_formed pieces f ≡ true
    → strip code (render pieces f) ≡ masked pieces
unfolding render masked is_well_formed strip start_of
strip-render [] nothing w = refl
strip-render [] (open_comment s) w = strip-open s w
strip-render (other c ∷ pieces) f w =
    let (n, w') = both_true (not (is_quote c)) _ w in
    let (m, w'') = both_true (not (opens_comment c (render pieces f))) _ w' in
    strip-other c (render pieces f) n m ∙ ap (◌∷◌ c) (strip-render pieces f w'')
strip-render (line_comment s ∷ pieces) f w =
    let (n, w') = both_true (not (has_newline s)) _ w in
    strip-line s (render pieces f) n ∙ ap (◌∷◌ newline) (strip-render pieces f w')
strip-render (block_comment s ∷ pieces) f w =
    let (n, w') = both_true (not (has_close s)) _ w in
    strip-block s (render pieces f) n ∙ strip-render pieces f w'
strip-render (quoted q inner ∷ pieces) f w =
    let (n, w') = both_true (is_quote q) _ w in
    let (m, w'') = both_true (are_inner q inner) _ w' in
    let (k, v) = both_true (not (begins_with q (render pieces f))) _ w'' in
    strip-quote q (inner_text q inner (render pieces f)) n
      (inner_text-is_filled q inner (render pieces f))
    ∙ strip-literal q inner (render pieces f) n m k
    ∙ ap (◌∷◌ space) (strip-render pieces f v)

pub strip_comments_and_strings-render :
    (pieces : List Piece) (f : Finish)
    → is_well_formed pieces f ≡ true
    → strip_comments_and_strings (render pieces f) ≡ masked pieces
unfolding strip_comments_and_strings
strip_comments_and_strings-render pieces f w = strip-render pieces f w

masked-block_comment :
    (pieces rest : List Piece) (s : List ℕ)
    → masked (pieces ++ block_comment s ∷ rest) ≡ masked (pieces ++ rest)
unfolding masked
masked-block_comment [] rest s = refl
masked-block_comment (other c ∷ pieces) rest s = ap (◌∷◌ c) (masked-block_comment pieces rest s)
masked-block_comment (line_comment t ∷ pieces) rest s =
    ap (◌∷◌ newline) (masked-block_comment pieces rest s)
masked-block_comment (block_comment t ∷ pieces) rest s = masked-block_comment pieces rest s
masked-block_comment (quoted q inner ∷ pieces) rest s =
    ap (◌∷◌ space) (masked-block_comment pieces rest s)

pub strip-block_comment :
    (pieces rest : List Piece) (s : List ℕ) (f : Finish)
    → is_well_formed (pieces ++ block_comment s ∷ rest) f ≡ true
    → is_well_formed (pieces ++ rest) f ≡ true
    → strip_comments_and_strings (render (pieces ++ block_comment s ∷ rest) f)
      ≡ strip_comments_and_strings (render (pieces ++ rest) f)
strip-block_comment pieces rest s f v w =
    strip_comments_and_strings-render (pieces ++ block_comment s ∷ rest) f v
    ∙ masked-block_comment pieces rest s
    ∙ sym (strip_comments_and_strings-render (pieces ++ rest) f w)
