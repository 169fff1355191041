-- ===== src/Prelude/Words.antt =====
-- Tests and searches on texts: equality, letter case, substrings, words of a regular expression, and
-- lists of texts without repetitions.
use Prim.Native.Nat.{ℕ, ◌+◌}
use mathlib.Core.Path.{◌≡◌, refl, ap}
use mathlib.Core.Logic.{inl, inr}
use mathlib.Core.Bool.{Bool, true, false, not, ◌&&◌, ◌||◌}
use mathlib.Core.List.{List, [], ◌∷◌, ◌++◌, map}
use mathlib.Core.Option.{Option, none, some}
use native.Mathlib.Omega.{arith}
use repo_agent.Prelude.Tests.{◌==◌, Bool-cases, if◌then◌else◌}
use repo_agent.Prelude.Text.{is_upper, is_word, after_prefix, skip_spaces, rstrip}

abbrev pub Text : Type 0
Text = List ℕ

-- bool(text)
unfoldable pub is_text : Text → Bool
is_text [] = false
is_text (c ∷ s) = true

unfoldable pub same_text : Text → Text → Bool
same_text [] [] = true
same_text [] (d ∷ t) = false
same_text (c ∷ s) [] = false
same_text (c ∷ s) (d ∷ t) = c == d && same_text s t

pub same_text_refl : (s : Text) → same_text s s ≡ true
unfolding same_text
same_text_refl [] = refl
same_text_refl (c ∷ s) = ground (arith, same_text_refl s)

pub same_text_sound : (s t : Text) → same_text s t ≡ true → s ≡ t
unfolding same_text
same_text_sound [] [] h = refl
same_text_sound [] (d ∷ t) h = cc
same_text_sound (c ∷ s) [] h = cc
same_text_sound (c ∷ s) (d ∷ t) h = grind (arith, same_text_sound s t)

unfoldable pub to_lower : ℕ → ℕ
unfolding is_upper
to_lower c = if is_upper c then c + 32 else c

-- str.lower()
unfoldable pub lower : Text → Text
unfolding to_lower
lower s = map to_lower s

-- str.strip()
unfoldable pub strip : Text → Text
unfolding skip_spaces rstrip
strip s = rstrip (skip_spaces s)

is_found : Option Text → Bool
is_found none = false
is_found (some s) = true

-- w in s
unfoldable pub has_text : Text → Text → Bool
unfolding is_found after_prefix
has_text w [] = is_found (after_prefix w [])
has_text w (c ∷ s) = is_found (after_prefix w (c ∷ s)) || has_text w s

unfoldable pub has_any : List Text → Text → Bool
unfolding has_text
has_any [] s = false
has_any (w ∷ ws) s = has_text w s || has_any ws s

starts_word : Text → Bool
starts_word [] = false
starts_word (c ∷ s) = is_word c

-- A final \b behind what ends in a word character.
unfoldable pub ends_word : Option Text → Bool
unfolding starts_word
ends_word none = false
ends_word (some s) = not (starts_word s)

-- \bw\b; `inner` says whether a word character stands in front.
unfoldable pub word_from : Bool → Text → Text → Bool
unfolding ends_word after_prefix
word_from inner w [] = false
word_from inner w (c ∷ s) =
    (not inner && ends_word (after_prefix w (c ∷ s))) || word_from (is_word c) w s

unfoldable pub has_word : Text → Text → Bool
unfolding word_from
has_word w s = word_from false w s

unfoldable pub has_any_word : List Text → Text → Bool
unfolding has_word
has_any_word [] s = false
has_any_word (w ∷ ws) s = has_word w s || has_any_word ws s

unfoldable pub mem_text : Text → List Text → Bool
unfolding same_text
mem_text s [] = false
mem_text s (t ∷ ts) = same_text s t || mem_text s ts

-- The texts of the second list that are new to the first, appended once each.
unfoldable pub add_new : List Text → List Text → List Text
unfolding mem_text
add_new seen [] = seen
add_new seen (t ∷ ts) = add_new (if mem_text t seen then seen else seen ++ t ∷ []) ts

unfoldable pub dedupe : List Text → List Text
unfolding add_new
dedupe items = add_new [] items

-- No text stands twice.
unfoldable pub IsDistinct : List Text → Type 0
unfolding mem_text
IsDistinct [] = Unit
IsDistinct (t ∷ ts) = (mem_text t ts ≡ false) × IsDistinct ts

pub same_text_sym : (s t : Text) → same_text s t ≡ same_text t s
unfolding same_text
same_text_sym [] [] = refl
same_text_sym [] (d ∷ t) = refl
same_text_sym (c ∷ s) [] = refl
same_text_sym (c ∷ s) (d ∷ t) = ground (arith, same_text_sym s t)

pub mem_same : (s t : Text) (ts : List Text) → same_text s t ≡ true → mem_text s ts ≡ mem_text t ts
mem_same s t ts h = ap (λ x. mem_text x ts) (same_text_sound s t h)

mem_text-append :
    (s : Text) (ts us : List Text) → mem_text s (ts ++ us) ≡ (mem_text s ts || mem_text s us)
unfolding mem_text
mem_text-append s [] us = refl
mem_text-append s (t ∷ ts) us = ground (arith, mem_text-append s ts us)

pub IsDistinct-snoc :
    (ts : List Text) (t : Text) → IsDistinct ts → mem_text t ts ≡ false → IsDistinct (ts ++ t ∷ [])
unfolding IsDistinct mem_text
IsDistinct-snoc [] t d h = (refl, tt)
IsDistinct-snoc (u ∷ us) t (n, d) h =
    ground (arith, mem_text-append u us (t ∷ []), same_text_sym t u, IsDistinct-snoc us t d)

pub add_new-IsDistinct :
    (seen items : List Text) → IsDistinct seen → IsDistinct (add_new seen items)
unfolding add_new
add_new-IsDistinct seen [] d = d
add_new-IsDistinct seen (t ∷ ts) d = elim (Bool-cases (mem_text t seen)) [
  | inl h ↦ rw (h, add_new) (add_new-IsDistinct seen ts d)
  | inr h ↦ rw (h, add_new) (add_new-IsDistinct (seen ++ t ∷ []) ts (IsDistinct-snoc seen t d h))
]

pub add_new-mem_text :
    (s : Text) (seen items : List Text)
    → mem_text s (add_new seen items) ≡ (mem_text s seen || mem_text s items)
unfolding add_new mem_text
add_new-mem_text s seen [] = ground arith
add_new-mem_text s seen (t ∷ ts) = elim (Bool-cases (mem_text t seen)) [
  | inl h ↦ rw (h, add_new) (ground (arith, add_new-mem_text s seen ts, mem_same s t seen))
  | inr h ↦
      rw (h, add_new)
        (ground (arith, add_new-mem_text s (seen ++ t ∷ []) ts, mem_text-append s seen (t ∷ [])))
]
