-- ===== src/Querying/Safety/Limits.antt =====
-- core/src/core/querying/service.py, `_ensure_limit`: whether the clause it appends takes effect.
use repo_agent.Prelude.{
  ℕ, ◌≡◌, refl, sym, ap, ◌∙◌, subst, ◌≢◌, inl, inr, Bool, true, false, ◌&&◌, List, [], ◌∷◌, ◌++◌,
  arith, ◌==◌, if◌then◌else◌, Bool-cases,
}
use repo_agent.Querying.Safety.Masking.{Start-cases, Inside-cases}
use repo_agent.Querying.Safety.{
  newline, space, Mode, code, line, block, literal, starts_line, starts_block, starts_literal,
  plain, start_of, skips_two, ends, skips_one, inside_of, last_outside, strip, limit_clause,
  ensure_limit, has_limit, strip_comments_and_strings, trimmed, is_quote,
}

-- Where the scan stands after the text, when a space follows.
unfoldable pub end_mode : Mode → List ℕ → Mode
unfolding start_of inside_of
end_mode m [] = m
end_mode code (c ∷ []) = elim (start_of c space) [
  | starts_line ↦ line
  | starts_block ↦ block
  | starts_literal ↦ literal c
  | plain ↦ code
]
end_mode code (c ∷ d ∷ s) = elim (start_of c d) [
  | starts_line ↦ end_mode line s
  | starts_block ↦ end_mode block s
  | starts_literal ↦ end_mode (literal c) (d ∷ s)
  | plain ↦ end_mode code (d ∷ s)
]
end_mode line (c ∷ s) = elim (c == newline) [ true ↦ end_mode code s | false ↦ end_mode line s ]
end_mode block (c ∷ []) = block
end_mode block (c ∷ d ∷ s) = elim (c == b'*' && d == b'/') [
  | true ↦ end_mode code s
  | false ↦ end_mode block (d ∷ s)
]
end_mode (literal q) (c ∷ []) = elim (inside_of q c space) [
  | skips_two ↦ literal q
  | ends ↦ code
  | skips_one ↦ literal q
]
end_mode (literal q) (c ∷ d ∷ s) = elim (inside_of q c d) [
  | skips_two ↦ end_mode (literal q) s
  | ends ↦ end_mode code (d ∷ s)
  | skips_one ↦ end_mode (literal q) (d ∷ s)
]

last_literal : (c : ℕ) → start_of c space ≡ starts_literal → last_outside c ≡ space ∷ []
unfolding start_of last_outside is_quote
last_literal c h = ground arith

is_code : Mode → Bool
is_code code = true
is_code m = false

is_line : Mode → Bool
is_line line = true
is_line m = false

not_line : (P : Type 0) (m : Mode) → is_line m ≡ false → m ≡ line → P
unfolding is_line
not_line P m h e = subst (λ b. if b then P else Unit) (sym h ∙ ap is_line e) tt

no_line : (c : ℕ) → start_of c space ≢ starts_line
unfolding start_of is_quote
no_line c h = ground arith

-- In a line comment at the end: the clause is masked.
strip-comment :
    (m : Mode) (s : List ℕ) → end_mode m s ≡ line → strip m (s ++ limit_clause) ≡ strip m s
unfolding strip end_mode is_line
strip-comment code [] e = not_line _ code refl e
strip-comment code (c ∷ []) e = elim (Start-cases (start_of c space)) [
  | inl h ↦ rw (h, strip) (absurd (no_line c h))
  | inr (inl h) ↦ not_line _ block refl (rw (h, end_mode) at e)
  | inr (inr (inl h)) ↦ not_line _ (literal c) refl (rw (h, end_mode) at e)
  | inr (inr (inr h)) ↦ not_line _ code refl (rw (h, end_mode) at e)
]
strip-comment code (c ∷ d ∷ s) e = elim (Start-cases (start_of c d)) [
  | inl h ↦ rw (h, strip) (strip-comment line s (rw (h, end_mode) at e))
  | inr (inl h) ↦ rw (h, strip) (strip-comment block s (rw (h, end_mode) at e))
  | inr (inr (inl h)) ↦ rw (h, strip) (strip-comment (literal c) (d ∷ s) (rw (h, end_mode) at e))
  | inr (inr (inr h)) ↦
      rw (h, strip) (ap (◌∷◌ c) (strip-comment code (d ∷ s) (rw (h, end_mode) at e)))
]
strip-comment line [] e = refl
strip-comment line (c ∷ s) e = elim (Bool-cases (c == newline)) [
  | inl h ↦ rw (h, strip) (ap (◌∷◌ c) (strip-comment code s (rw (h, end_mode) at e)))
  | inr h ↦ rw (h, strip) (strip-comment line s (rw (h, end_mode) at e))
]
strip-comment block [] e = not_line _ block refl e
strip-comment block (c ∷ []) e = not_line _ block refl e
strip-comment block (c ∷ d ∷ s) e = elim (Bool-cases (c == b'*' && d == b'/')) [
  | inl h ↦ rw (h, strip) (strip-comment code s (rw (h, end_mode) at e))
  | inr h ↦ rw (h, strip) (strip-comment block (d ∷ s) (rw (h, end_mode) at e))
]
strip-comment (literal q) [] e = not_line _ (literal q) refl e
strip-comment (literal q) (c ∷ []) e = elim (Inside-cases (inside_of q c space)) [
  | inl h ↦ not_line _ (literal q) refl (rw (h, end_mode) at e)
  | inr (inl h) ↦ not_line _ code refl (rw (h, end_mode) at e)
  | inr (inr h) ↦ not_line _ (literal q) refl (rw (h, end_mode) at e)
]
strip-comment (literal q) (c ∷ d ∷ s) e = elim (Inside-cases (inside_of q c d)) [
  | inl h ↦ rw (h, strip) (strip-comment (literal q) s (rw (h, end_mode) at e))
  | inr (inl h) ↦
      rw (h, strip) (ap (◌∷◌ space) (strip-comment code (d ∷ s) (rw (h, end_mode) at e)))
  | inr (inr h) ↦ rw (h, strip) (strip-comment (literal q) (d ∷ s) (rw (h, end_mode) at e))
]

-- When a query without a LIMIT clause is trimmed to one that ends in a line comment, the clause
-- that `_ensure_limit` appends is a part of that comment: to a reader of the query nothing is added.
pub ensure_limit-commented :
    (cypher : List ℕ)
    → has_limit cypher ≡ false
    → end_mode code (trimmed cypher) ≡ line
    → strip_comments_and_strings (ensure_limit cypher).0
      ≡ strip_comments_and_strings (trimmed cypher)
unfolding ensure_limit strip_comments_and_strings
ensure_limit-commented cypher without inside =
    rw (without, ensure_limit) (strip-comment code (trimmed cypher) inside)
