-- ===== src/Prelude/Text.antt =====
-- Texts that the program walks, as lists of code points.
use Prim.Native.Nat.{ℕ, zero, suc, ◌+◌, ◌-◌, ◌/◌, ◌%◌}
use Prim.Native.Char.{code}
use Prim.Native.String.{String}
use mathlib.Core.Bool.{Bool, true, false, ◌&&◌, ◌||◌}
use mathlib.Core.List.{List, [], ◌∷◌}
use mathlib.Core.Option.{Option, none, some}
use repo_agent.Prelude.Tests.{leb, ltb, ◌==◌, if◌then◌else◌}

abbrev pub codes : String → List ℕ
codes String.[] = []
codes (String.◌∷◌ c s) = code c ∷ codes s

-- The character classes of ASCII.
unfoldable pub is_space : ℕ → Bool
is_space c = c == 32 || (leb 9 c && leb c 13) || (leb 28 c && leb c 31)

unfoldable pub is_upper : ℕ → Bool
is_upper c = leb b'A' c && leb c b'Z'

unfoldable pub is_lower : ℕ → Bool
is_lower c = leb b'a' c && leb c b'z'

unfoldable pub is_digit : ℕ → Bool
is_digit c = leb b'0' c && leb c b'9'

-- \w of a regular expression.
unfoldable pub is_word : ℕ → Bool
unfolding is_upper is_lower is_digit
is_word c = is_upper c || (is_lower c || (is_digit c || c == b'_'))

unfoldable pub to_upper : ℕ → ℕ
unfolding is_lower
to_upper c = if is_lower c then c - 32 else c

-- What follows `prefix`, if the text starts with it.
unfoldable pub after_prefix : List ℕ → List ℕ → Option (List ℕ)
after_prefix [] s = some s
after_prefix (p ∷ ps) [] = none
after_prefix (p ∷ ps) (c ∷ s) = if p == c then after_prefix ps s else none

unfoldable pub starts_with : List ℕ → List ℕ → Bool
starts_with [] s = true
starts_with (p ∷ ps) [] = false
starts_with (p ∷ ps) (c ∷ s) = if p == c then starts_with ps s else false

unfoldable pub skip_spaces : List ℕ → List ℕ
unfolding is_space
skip_spaces [] = []
skip_spaces (c ∷ s) = if is_space c then skip_spaces s else c ∷ s

-- str.rstrip().
unfoldable pub rstrip : List ℕ → List ℕ
unfolding is_space
rstrip [] = []
rstrip (c ∷ s) = elim (rstrip s) [ [] ↦ if is_space c then [] else c ∷ [] | ◌∷◌ d t ↦ c ∷ d ∷ t ]

-- str(n); a number has at most as many digits as it counts, and one.
digits : ℕ → ℕ → List ℕ → List ℕ
digits zero n later = later
digits (suc fuel) n later = elim (ltb n 10) [
  | true ↦ (b'0' + n) ∷ later
  | false ↦ digits fuel (n / 10) ((b'0' + n % 10) ∷ later)
]

unfoldable pub decimal : ℕ → List ℕ
unfolding digits
decimal n = digits (n + 1) n []
