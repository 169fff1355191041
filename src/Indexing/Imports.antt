-- ===== src/Indexing/Imports.antt =====
-- core/src/core/indexing/indexer.py: relative imports, and the names that imports bind.
use repo_agent.Prelude.{
  ℕ, zero, suc, ◌+◌, Bool, false, not, ◌&&◌, Option, none, some, List, [], ◌∷◌, ◌==◌, if◌then◌else◌,
}
use repo_agent.Prelude.Words.{Text, same_text}
use repo_agent.Indexing.Dotted.{dot, parent, partition, join, set_default}

-- module_ref.lstrip(".") with the number of dots that are gone.
strip_dots : ℕ → Text → ℕ × Text
strip_dots level [] = (level, [])
strip_dots level (c ∷ s) = if c == dot then strip_dots (level + 1) s else (level, c ∷ s)

unfoldable pub ancestor : ℕ → Text → Text
unfolding parent
ancestor zero s = s
ancestor (suc n) s = ancestor n (parent s)

under : Text → Text → Text
unfolding join
under [] name = name
under (c ∷ s) [] = c ∷ s
under (c ∷ s) (d ∷ t) = join (c ∷ s) (d ∷ t)

resolve_dots : ℕ → Text → Text → Bool → Text
unfolding ancestor under parent
resolve_dots zero stripped current is_package = stripped
resolve_dots (suc n) stripped current is_package =
    under (ancestor n (if is_package then current else parent current)) stripped

unfoldable pub resolve_relative_module : Text → Text → Bool → Text
unfolding resolve_dots strip_dots
resolve_relative_module module_ref current_module is_package =
    let (level, stripped) = strip_dots 0 module_ref in
    resolve_dots level stripped current_module is_package

pub record ParsedImport : Type 0 where
  pub import_module : Option Text
  pub names : List Text
  pub alias : Option Text

abbrev pub Bindings : Type 0
Bindings = List (Text × Text)

-- imported.module or ""
raw_of : Option Text → Text
raw_of none = []
raw_of (some m) = m

-- imported.alias or name
alias_or : Option Text → Text → Text
alias_or none name = name
alias_or (some []) name = name
alias_or (some (c ∷ s)) name = c ∷ s

is_relative : Text → Bool
is_relative [] = false
is_relative (c ∷ s) = c == dot

-- f"{target}.{name}" if target else name
target_name : Text → Text → Text
unfolding join
target_name [] name = name
target_name (c ∷ s) name = join (c ∷ s) name

bind_names : Text → Option Text → List Text → Bindings → Bindings
unfolding set_default alias_or target_name
bind_names target alias [] d = d
bind_names target alias (n ∷ names) d =
    bind_names target alias names (set_default (alias_or alias n) (target_name target n) d)

-- imported.names == [raw]
is_plain : Text → List Text → Bool
unfolding same_text
is_plain raw [] = false
is_plain raw (n ∷ []) = same_text n raw
is_plain raw (n ∷ m ∷ names) = false

bind_plain : Text → Option Text → Bindings → Bindings
unfolding set_default alias_or partition
bind_plain raw alias d =
    let head = (partition raw).0 in set_default head head (set_default (alias_or alias raw) raw d)

unfoldable pub bind_import : Text → Bool → ParsedImport → Bindings → Bindings
unfolding bind_names bind_plain is_plain is_relative raw_of resolve_relative_module
bind_import current is_package i d =
    let raw = raw_of i.import_module in
    if not (is_relative raw) && is_plain raw i.names
    then bind_plain raw i.alias d
    else bind_names (resolve_relative_module raw current is_package) i.alias i.names d

bind_all : Text → Bool → List ParsedImport → Bindings → Bindings
unfolding bind_import
bind_all current is_package [] d = d
bind_all current is_package (i ∷ imports) d =
    bind_all current is_package imports (bind_import current is_package i d)

unfoldable pub bindings_from_imports : List ParsedImport → Text → Bool → Bindings
unfolding bind_all
bindings_from_imports imports current is_package = bind_all current is_package imports []
