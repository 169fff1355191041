-- ===== src/Prelude/Json.antt =====
-- JSON values, with the truth of a Python value. A number is an integer.
use Prim.Native.Nat.{ℕ}
use Prim.Native.String.{String}
use mathlib.Core.Bool.{Bool, true, false}
use mathlib.Core.List.{List, [], ◌∷◌, map}
use text.Mathlib.Text.{◌==◌ as str_eq}
use repo_agent.Prelude.Tests.{if◌then◌else◌}
use repo_agent.Prelude.Int.{ℤ, pos}

mutual
  pub data Json : Type 0 where
    null : Json
    bool : Bool → Json
    number : ℤ → Json
    str : List ℕ → Json
    array : Items → Json
    object : Fields → Json

  pub data Items : Type 0 where
    nil : Items
    cons : Json → Items → Items

  pub data Fields : Type 0 where
    end : Fields
    field : String → Json → Fields → Fields

-- bool(value)
unfoldable pub truthy : Json → Bool
truthy null = false
truthy (bool b) = b
truthy (number (pos ℕ.zero)) = false
truthy (number n) = true
truthy (str []) = false
truthy (str (c ∷ s)) = true
truthy (array nil) = false
truthy (array (cons v vs)) = true
truthy (object end) = false
truthy (object (field k v fs)) = true

-- mapping.get(k); a missing key gives None.
unfoldable pub get_field : String → Fields → Json
get_field k end = null
get_field k (field j v fs) = if str_eq j k then v else get_field k fs

unfoldable pub has_field : String → Fields → Bool
has_field k end = false
has_field k (field j v fs) = if str_eq j k then true else has_field k fs

-- mapping[k] = v
unfoldable pub put_field : String → Json → Fields → Fields
put_field k v end = field k v end
put_field k v (field j w fs) = if str_eq j k then field j v fs else field j w (put_field k v fs)

unfoldable pub append_items : Items → Items → Items
append_items nil ys = ys
append_items (cons x xs) ys = cons x (append_items xs ys)

-- {k: v, ...}
unfoldable pub dict : List (String × Json) → Fields
dict [] = end
dict ((k, v) ∷ kvs) = field k v (dict kvs)

unfoldable pub items_of : List Json → Items
items_of [] = nil
items_of (v ∷ vs) = cons v (items_of vs)

unfoldable pub text_list : List (List ℕ) → Json
unfolding items_of
text_list ts = array (items_of (map str ts))
