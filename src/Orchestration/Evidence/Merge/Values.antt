-- ===== src/Orchestration/Evidence/Merge/Values.antt =====
-- core/src/core/orchestration/evidence.py, `merge_agent_outputs`: the fields of two outputs that are
-- both ok.
use repo_agent.Prelude.{
  String, ◌≡◌, refl, sym, ap, ◌∙◌, inl, inr, Bool, true, false, Option, arith, str_eq, eq_iff,
  if◌then◌else◌, Bool-cases,
}
use repo_agent.Prelude.Json.{
  Json, null, bool, number, str, array, object, Fields, end, field, get_field, has_field, put_field,
  append_items,
}
use repo_agent.Orchestration.Evidence.Merge.{joined_value, merge_fields, fields_of, or_output}

-- A dictionary: no key stands twice.
unfoldable pub HasKeys : Fields → Type 0
unfolding has_field
HasKeys end = Unit
HasKeys (field k v fs) = (has_field k fs ≡ false) × HasKeys fs

-- Two lists, one behind the other; for any other values the new one.
both_values : Json → Json → Json
unfolding append_items
both_values (array xs) (array ys) = array (append_items xs ys)
both_values (array xs) null = null
both_values (array xs) (bool b) = bool b
both_values (array xs) (number n) = number n
both_values (array xs) (str s) = str s
both_values (array xs) (object fs) = object fs
both_values null new = new
both_values (bool b) new = new
both_values (number n) new = new
both_values (str s) new = new
both_values (object fs) new = new

-- A key's value, from what stands under it on both sides: the old value if the new side does not have
-- the key.
unfoldable pub joint_value : Bool → Json → Json → Json
unfolding both_values
joint_value true old new = both_values old new
joint_value false old new = old

joined-both_values : (old new : Json) → joined_value old new ≡ both_values old new
unfolding joined_value both_values
joined-both_values (array xs) (array ys) = refl
joined-both_values (array xs) null = refl
joined-both_values (array xs) (bool b) = refl
joined-both_values (array xs) (number n) = refl
joined-both_values (array xs) (str s) = refl
joined-both_values (array xs) (object fs) = refl
joined-both_values null new = refl
joined-both_values (bool b) new = refl
joined-both_values (number n) new = refl
joined-both_values (str s) new = refl
joined-both_values (object fs) new = refl

get_field-put_field :
    (k j : String) (v : Json) (fs : Fields)
    → get_field k (put_field j v fs) ≡ (if str_eq j k then v else get_field k fs)
unfolding get_field put_field
get_field-put_field k j v end = refl
get_field-put_field k j v (field i w fs) =
    ground (arith, eq_iff j k, eq_iff i k, eq_iff i j, get_field-put_field k j v fs)

has_field-same : (j k : String) (fs : Fields) → str_eq j k ≡ true → has_field j fs ≡ has_field k fs
has_field-same j k fs h = ap (λ i. has_field i fs) ((eq_iff j k).0 h)

get_field-same : (j k : String) (fs : Fields) → str_eq j k ≡ true → get_field j fs ≡ get_field k fs
get_field-same j k fs h = ap (λ i. get_field i fs) ((eq_iff j k).0 h)

-- Each key of two dictionaries that are joined has its joint value.
pub get_field-merge_fields :
    (k : String) (old new : Fields)
    → HasKeys new
    → get_field k (merge_fields old new)
      ≡ joint_value (has_field k new) (get_field k old) (get_field k new)
unfolding merge_fields HasKeys get_field has_field joint_value
get_field-merge_fields k old end d = refl
get_field-merge_fields k old (field j v new) (n, d) =
    let value = joined_value (get_field j old) v in
    let rest =
      get_field-merge_fields k (put_field j value old) new d
      ∙ ap (λ x. joint_value (has_field k new) x (get_field k new))
          (get_field-put_field k j value old) in
    elim (Bool-cases (str_eq j k)) [
      | inl h ↦
          rw (h, get_field, has_field)
            (rest
              ∙ ap
                  (λ x.
                    joint_value x (if str_eq j k then value else get_field k old) (get_field k new))
                  (sym (has_field-same j k new h) ∙ n)
              ∙ ap (λ x. if x then value else get_field k old) h
              ∙ joined-both_values (get_field j old) v
              ∙ ap (λ x. both_values x v) (get_field-same j k old h))
      | inr h ↦
          rw (h, get_field, has_field)
            (rest
              ∙ ap
                  (λ x.
                    joint_value (has_field k new) (if x then value else get_field k old)
                      (get_field k new))
                  h)
    ]

is_filled : Fields → Bool
is_filled end = false
is_filled (field k v fs) = true

put_field-is_filled : (k : String) (v : Json) (fs : Fields) → is_filled (put_field k v fs) ≡ true
unfolding is_filled put_field
put_field-is_filled k v end = refl
put_field-is_filled k v (field j w fs) = elim (Bool-cases (str_eq j k)) [
  | inl h ↦ rw (h, put_field) refl
  | inr h ↦ rw (h, put_field) refl
]

merge_fields-is_filled :
    (old new : Fields) → is_filled old ≡ true → is_filled (merge_fields old new) ≡ true
unfolding merge_fields
merge_fields-is_filled old end h = h
merge_fields-is_filled old (field k v new) h =
    merge_fields-is_filled (put_field k (joined_value (get_field k old) v) old) new
      (put_field-is_filled k (joined_value (get_field k old) v) old)

fields_of-filled :
    (fs : Fields) (new : Option Json) → is_filled fs ≡ true → fields_of (or_output fs new) ≡ fs
unfolding fields_of or_output is_filled
fields_of-filled end new h = absurd (ground arith)
fields_of-filled (field k v fs) new h = refl

fields_of-blank :
    (old : Fields) (new : Option Json) → fields_of new ≡ end → fields_of (or_output old new) ≡ old
unfolding fields_of or_output
fields_of-blank end new h = h
fields_of-blank (field k v fs) new h = refl

-- An empty dictionary gives way to the new output, whose fields are then none.
fields_of-or_output :
    (old new : Fields) (output : Option Json)
    → fields_of output ≡ new
    → fields_of (or_output (merge_fields old new) output) ≡ merge_fields old new
unfolding merge_fields
fields_of-or_output old end output h = fields_of-blank old output h
fields_of-or_output old (field k v new) output h =
    fields_of-filled (merge_fields old (field k v new)) output (
      merge_fields-is_filled (put_field k (joined_value (get_field k old) v) old) new
        (put_field-is_filled k (joined_value (get_field k old) v) old))

pub get_field-both :
    (k : String) (old new : Option Json)
    → HasKeys (fields_of new)
    → get_field k (fields_of (or_output (merge_fields (fields_of old) (fields_of new)) new))
      ≡ joint_value
          (has_field k (fields_of new))
          (get_field k (fields_of old))
          (get_field k (fields_of new))
get_field-both k old new d =
    ap (get_field k) (fields_of-or_output (fields_of old) (fields_of new) new refl)
    ∙ get_field-merge_fields k (fields_of old) (fields_of new) d
