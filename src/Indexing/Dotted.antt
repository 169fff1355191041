-- ===== src/Indexing/Dotted.antt =====
-- core/src/core/indexing/indexer.py: dotted names as texts, `str.partition` and `str.rpartition` at a
-- dot, and the dictionaries whose keys are texts.
pub mod Prefixes
use repo_agent.Prelude.{
  ℕ, zero, suc, Option, none, some, List, [], ◌∷◌, ◌++◌, ◌==◌, if◌then◌else◌, length,
}
use repo_agent.Prelude.Words.{Text, same_text, mem_text}

abbrev pub dot : ℕ
dot = b'.'

before_last : ℕ → Option Text → Option Text
before_last c none = if c == dot then some [] else none
before_last c (some t) = some (c ∷ t)

-- What stands in front of the last dot, if there is one.
unfoldable pub last_dot : Text → Option Text
unfolding before_last
last_dot [] = none
last_dot (c ∷ s) = before_last c (last_dot s)

or_empty : Option Text → Text
or_empty none = []
or_empty (some t) = t

-- s.rpartition(".")[0]
unfoldable pub parent : Text → Text
unfolding last_dot or_empty
parent s = or_empty (last_dot s)

before_first : ℕ → Text × Option Text → Text × Option Text
before_first c (head, rest) = (c ∷ head, rest)

-- s.partition("."): the head, and the rest if there is a dot.
unfoldable pub partition : Text → Text × Option Text
unfolding before_first
partition [] = ([], none)
partition (c ∷ s) = if c == dot then ([], some s) else before_first c (partition s)

-- f"{a}.{b}"
unfoldable pub join : Text → Text → Text
join a b = a ++ dot ∷ b

module _ {ℓ} {V : Type ℓ} where
  -- d.get(k)
  unfoldable pub get : Text → List (Text × V) → Option V
  unfolding same_text
  get k [] = none
  get k ((j, v) ∷ d) = if same_text j k then some v else get k d

  -- d.setdefault(k, v)
  unfoldable pub set_default : Text → V → List (Text × V) → List (Text × V)
  unfolding same_text
  set_default k v [] = (k, v) ∷ []
  set_default k v ((j, w) ∷ d) = if same_text j k then (j, w) ∷ d else (j, w) ∷ set_default k v d

-- while prefix: if prefix in names: return prefix; prefix = prefix.rpartition(".")[0]
unfoldable pub nearest_from : List Text → ℕ → Text → Option Text
unfolding parent mem_text
nearest_from names zero prefix = none
nearest_from names (suc fuel) [] = none
nearest_from names (suc fuel) (c ∷ s) =
    let rest = nearest_from names fuel (parent (c ∷ s)) in
    if mem_text (c ∷ s) names then some (c ∷ s) else rest

unfoldable pub nearest : List Text → Text → Option Text
unfolding nearest_from
nearest names prefix = nearest_from names (length prefix) prefix
