-- ===== src/Querying/Safety/Masking.antt =====
-- core/src/core/querying/safety.py: what `strip_comments_and_strings` leaves of a query.
use repo_agent.Prelude.{
  ℕ, ◌≡◌, refl, ◌⊎◌, inl, inr, true, false, ◌&&◌, List, [], ◌∷◌, arith, ◌==◌, Bool-cases, All,
}
use repo_agent.Querying.Safety.{
  newline, space, is_quote, Mode, code, line, block, literal, Start, starts_line, starts_block,
  starts_literal, plain, start_of, Inside, skips_two, ends, skips_one, inside_of, last_outside,
  strip, strip_comments_and_strings,
}

pub Start-cases :
    (x : Start) → (x ≡ starts_line) ⊎ ((x ≡ starts_block) ⊎ ((x ≡ starts_literal) ⊎ (x ≡ plain)))
Start-cases starts_line = inl refl
Start-cases starts_block = inr (inl refl)
Start-cases starts_literal = inr (inr (inl refl))
Start-cases plain = inr (inr (inr refl))

pub Inside-cases : (x : Inside) → (x ≡ skips_two) ⊎ ((x ≡ ends) ⊎ (x ≡ skips_one))
Inside-cases skips_two = inl refl
Inside-cases ends = inr (inl refl)
Inside-cases skips_one = inr (inr refl)

abbrev pub IsPlain : ℕ → Type 0
IsPlain c = is_quote c ≡ false

space-IsPlain : IsPlain space
unfolding is_quote
space-IsPlain = refl

start-IsPlain : (c d : ℕ) → start_of c d ≡ plain → IsPlain c
unfolding start_of
start-IsPlain c d h = ground arith

newline-IsPlain : (c : ℕ) → (c == newline) ≡ true → IsPlain c
unfolding is_quote
newline-IsPlain c h = ground arith

last-IsPlain : (c : ℕ) → All IsPlain (last_outside c)
unfolding last_outside
last-IsPlain c = elim (Bool-cases (is_quote c)) [
  | inl h ↦ rw (h, last_outside) (space-IsPlain, tt)
  | inr h ↦ rw (h, last_outside) (h, tt)
]

strip-IsPlain : (m : Mode) (s : List ℕ) → All IsPlain (strip m s)
unfolding strip
strip-IsPlain code [] = tt
strip-IsPlain code (c ∷ []) = last-IsPlain c
strip-IsPlain code (c ∷ d ∷ s) = elim (Start-cases (start_of c d)) [
  | inl h ↦ rw (h, strip) (strip-IsPlain line s)
  | inr (inl h) ↦ rw (h, strip) (strip-IsPlain block s)
  | inr (inr (inl h)) ↦ rw (h, strip) (strip-IsPlain (literal c) (d ∷ s))
  | inr (inr (inr h)) ↦ rw (h, strip) (start-IsPlain c d h, strip-IsPlain code (d ∷ s))
]
strip-IsPlain line [] = tt
strip-IsPlain line (c ∷ s) = elim (Bool-cases (c == newline)) [
  | inl h ↦ rw (h, strip) (newline-IsPlain c h, strip-IsPlain code s)
  | inr h ↦ rw (h, strip) (strip-IsPlain line s)
]
strip-IsPlain block [] = tt
strip-IsPlain block (c ∷ []) = tt
strip-IsPlain block (c ∷ d ∷ s) = elim (Bool-cases (c == b'*' && d == b'/')) [
  | inl h ↦ rw (h, strip) (strip-IsPlain code s)
  | inr h ↦ rw (h, strip) (strip-IsPlain block (d ∷ s))
]
strip-IsPlain (literal q) [] = (space-IsPlain, tt)
strip-IsPlain (literal q) (c ∷ []) = (space-IsPlain, tt)
strip-IsPlain (literal q) (c ∷ d ∷ s) = elim (Inside-cases (inside_of q c d)) [
  | inl h ↦ rw (h, strip) (strip-IsPlain (literal q) s)
  | inr (inl h) ↦ rw (h, strip) (space-IsPlain, strip-IsPlain code (d ∷ s))
  | inr (inr h) ↦ rw (h, strip) (strip-IsPlain (literal q) (d ∷ s))
]

-- What is left of a query holds no quote character: no literal and no quoted identifier is open in
-- the text that the clauses are searched in.
pub strip_comments_and_strings-IsPlain :
    (cypher : List ℕ) → All IsPlain (strip_comments_and_strings cypher)
unfolding strip_comments_and_strings
strip_comments_and_strings-IsPlain cypher = strip-IsPlain code cypher
