-- ===== src/Orchestration/PromptBudget.antt =====
-- core/src/core/orchestration/prompt_budget.py: the truncation of the payload of a prompt. The size of
-- a prompt, which json.dumps decides, is an argument.
pub mod Clipping
mod Examples
use repo_agent.Prelude.{
  ℕ, zero, suc, ◌+◌, ◌-◌, ◌*◌, ◌/◌, max, String, Bool, false, ◌&&◌, ◌||◌, Option, none, some, List,
  [], ◌∷◌, ◌++◌, str_eq, ltb, leb, if◌then◌else◌, length, take,
}
use repo_agent.Prelude.Text.{codes}
use repo_agent.Prelude.Words.{Text}
use repo_agent.Prelude.Json.{
  Json, null, bool, number, str, array, object, Items, nil, cons, Fields, end, field, get_field,
  put_field,
}
use repo_agent.Prelude.Int.{ℤ, pos, negsuc}

pub data Part : Type 0 where
  key : String → Part
  index : ℕ → Part

abbrev pub JsonPath : Type 0
JsonPath = List Part

pub data Order : Type 0 where
  snippets_then_lists lists_then_snippets : Order

-- _walk: every value below, with its path, in front of what is below it.
mutual
  pub walk : JsonPath → Json → List (JsonPath × Json)
  walk prefix (object fs) = walk_fields prefix fs
  walk prefix (array vs) = walk_items prefix 0 vs
  walk prefix null = []
  walk prefix (bool b) = []
  walk prefix (number n) = []
  walk prefix (str s) = []

  pub walk_items : JsonPath → ℕ → Items → List (JsonPath × Json)
  walk_items prefix i nil = []
  walk_items prefix i (cons v vs) =
      (prefix ++ index i ∷ [], v)
      ∷ (walk (prefix ++ index i ∷ []) v ++ walk_items prefix (i + 1) vs)

  pub walk_fields : JsonPath → Fields → List (JsonPath × Json)
  walk_fields prefix end = []
  walk_fields prefix (field k v fs) =
      (prefix ++ key k ∷ [], v) ∷ (walk (prefix ++ key k ∷ []) v ++ walk_fields prefix fs)

item_at : ℕ → Items → Json
item_at i nil = null
item_at zero (cons v vs) = v
item_at (suc i) (cons v vs) = item_at i vs

put_item : ℕ → Json → Items → Items
put_item i v nil = nil
put_item zero v (cons w vs) = cons v vs
put_item (suc i) v (cons w vs) = cons w (put_item i v vs)

-- _set
unfoldable pub set_at : JsonPath → Json → Json → Json
unfolding item_at put_item get_field put_field
set_at [] v old = v
set_at (key k ∷ path) v (object fs) = object (put_field k (set_at path v (get_field k fs)) fs)
set_at (index i ∷ path) v (array vs) = array (put_item i (set_at path v (item_at i vs)) vs)
set_at (part ∷ path) v old = old

later_key : Option String → Option String → Option String
later_key none later = later
later_key (some k) later = some k

key_of : Part → Option String
key_of (key k) = some k
key_of (index i) = none

-- The last part of the path that is a key.
unfoldable pub parent_key : JsonPath → Option String
unfolding later_key key_of
parent_key [] = none
parent_key (p ∷ path) = later_key (parent_key path) (key_of p)

snippet_body_keys : List String
snippet_body_keys = "text" ∷ "snippet" ∷ "snippet_a" ∷ "snippet_b" ∷ "code" ∷ "source" ∷ "body" ∷ []

is_among : String → List String → Bool
is_among k [] = false
is_among k (j ∷ js) = str_eq j k || is_among k js

is_body_key : Option String → Bool
unfolding is_among snippet_body_keys
is_body_key none = false
is_body_key (some k) = is_among k snippet_body_keys

abbrev pub min_snippet_chars : ℕ
min_snippet_chars = 80

abbrev pub min_list_len : ℕ
min_list_len = 2

-- A longer snippet takes the place of the longest so far.
longer_snippet : JsonPath → Json → Option (JsonPath × Text) → ℕ → Option (JsonPath × Text) × ℕ
unfolding is_body_key parent_key
longer_snippet path (str s) best longest =
    if is_body_key (parent_key path) && ltb longest (length s)
    then (some (path, s), length s)
    else (best, longest)
longer_snippet path v best longest = (best, longest)

longest_snippet : List (JsonPath × Json) → Option (JsonPath × Text) → ℕ → Option (JsonPath × Text)
unfolding longer_snippet
longest_snippet [] best longest = best
longest_snippet ((path, v) ∷ values) best longest =
    let (b, n) = longer_snippet path v best longest in longest_snippet values b n

unfoldable pub item_count : Items → ℕ
item_count nil = 0
item_count (cons v vs) = item_count vs + 1

longer_list : JsonPath → Json → Option (JsonPath × Items) → ℕ → Option (JsonPath × Items) × ℕ
unfolding item_count
longer_list path (array vs) best longest =
    if ltb longest (item_count vs) then (some (path, vs), item_count vs) else (best, longest)
longer_list path v best longest = (best, longest)

longest_list : List (JsonPath × Json) → Option (JsonPath × Items) → ℕ → Option (JsonPath × Items)
unfolding longer_list
longest_list [] best longest = best
longest_list ((path, v) ∷ values) best longest =
    let (b, n) = longer_list path v best longest in longest_list values b n

-- _OMISSION_SUFFIX
abbrev pub omission_suffix : Text
omission_suffix = 10 ∷ codes "... (truncated)"

unfoldable pub kept_chars : ℕ → ℕ → ℕ
kept_chars chars excess = if leb chars (chars - excess) then chars / 2 else chars - excess

-- value[:keep] + _OMISSION_SUFFIX if keep else ""
unfoldable pub clip_to : ℕ → Text → Text
clip_to zero s = []
clip_to (suc keep) s = take (suc keep) s ++ omission_suffix

unfoldable pub clip : ℕ → Text → Text
unfolding clip_to kept_chars
clip excess s = clip_to (kept_chars (length s) excess) s

unfoldable pub take_items : ℕ → Items → Items
take_items zero vs = nil
take_items (suc n) nil = nil
take_items (suc n) (cons v vs) = cons v (take_items n vs)

pub data Kind : Type 0 where
  snippet list_kind : Kind

pub record Dropped : Type 0 where
  pub path : JsonPath
  pub kind : Kind
  pub original : ℕ
  pub kept : ℕ

-- A payload with what has been dropped so far.
pub record Draft : Type 0 where
  pub payload : Json
  pub dropped : List Dropped

cut_snippet : ℕ → Draft → Option (JsonPath × Text) → Option Draft
unfolding clip set_at
cut_snippet excess d none = none
cut_snippet excess d (some (path, s)) = some (record {
  payload = set_at path (str (clip excess s)) d.payload;
  dropped =
      d.dropped
      ++ record { path = path; kind = snippet; original = length s; kept = length (clip excess s) }
        ∷ [];
})

-- false is none here.
unfoldable pub truncate_longest_snippet : ℕ → Draft → Option Draft
unfolding cut_snippet longest_snippet walk
truncate_longest_snippet excess d =
    cut_snippet excess d (longest_snippet (walk [] d.payload) none min_snippet_chars)

cut_list : Draft → Option (JsonPath × Items) → Option Draft
unfolding take_items item_count set_at
cut_list d none = none
cut_list d (some (path, vs)) =
    let keep = max 1 (item_count vs / 2) in
    if ltb (item_count vs) min_list_len
    then none
    else some (record {
      payload = set_at path (array (take_items keep vs)) d.payload;
      dropped =
          d.dropped
          ++ record { path = path; kind = list_kind; original = item_count vs; kept = keep } ∷ [];
    })

unfoldable pub trim_longest_list : Draft → Option Draft
unfolding cut_list longest_list walk
trim_longest_list d = cut_list d (longest_list (walk [] d.payload) none (min_list_len - 1))

or_else : Option Draft → Option Draft → Option Draft
or_else none later = later
or_else (some d) later = some d

unfoldable pub trim_once : Order → ℕ → Draft → Option Draft
unfolding or_else truncate_longest_snippet trim_longest_list
trim_once lists_then_snippets excess d =
    or_else (trim_longest_list d) (truncate_longest_snippet excess d)
trim_once snippets_then_lists excess d =
    or_else (truncate_longest_snippet excess d) (trim_longest_list d)

-- for _ in range(_MAX_TRIM_ROUNDS), with the rounds that are left.
unfoldable pub trim_rounds : (Json → ℕ) → ℕ → Order → ℕ → Draft → Draft
unfolding trim_once
trim_rounds tokens budget order zero d = d
trim_rounds tokens budget order (suc n) d =
    if leb (tokens d.payload) budget
    then d
    else elim (trim_once order (max 1 ((tokens d.payload - budget) * 4)) d) [
      | none ↦ d
      | some d' ↦ trim_rounds tokens budget order n d'
    ]

abbrev max_trim_rounds : ℕ
max_trim_rounds = 64

pub record PromptTruncation : Type 0 where
  pub original_estimated_tokens : ℕ
  pub final_estimated_tokens : ℕ
  pub budget : ℕ
  pub dropped : List Dropped

truncation_of : (Json → ℕ) → ℕ → ℕ → Draft → List Dropped → Json × Option PromptTruncation
truncation_of tokens budget original d [] = (d.payload, none)
truncation_of tokens budget original d (x ∷ dropped) = (
  d.payload,
  some (record {
    original_estimated_tokens = original;
    final_estimated_tokens = tokens d.payload;
    budget = budget;
    dropped = x ∷ dropped;
  }),
)

apply_positive : (Json → ℕ) → ℕ → Order → Json → Json × Option PromptTruncation
unfolding trim_rounds truncation_of
apply_positive tokens budget order payload =
    if leb (tokens payload) budget
    then (payload, none)
    else (let d =
          trim_rounds tokens budget order max_trim_rounds
            (record { payload = payload; dropped = [] }) in
        truncation_of tokens budget (tokens payload) d d.dropped)

-- A budget that is not positive is none.
unfoldable pub apply_prompt_budget : (Json → ℕ) → ℤ → Order → Json → Json × Option PromptTruncation
unfolding apply_positive
apply_prompt_budget tokens (negsuc n) order payload = (payload, none)
apply_prompt_budget tokens (pos zero) order payload = (payload, none)
apply_prompt_budget tokens (pos (suc n)) order payload = apply_positive tokens (suc n) order payload
