-- ===== src/Orchestration/Evidence/Merge/Keeping.antt =====
-- core/src/core/orchestration/evidence.py: what `merge_agent_outputs` keeps of both sides.
use repo_agent.Prelude.{
  String, ◌≡◌, refl, sym, ap, ◌∙◌, subst, inl, inr, Bool, true, false, ◌||◌, Option, none, some, [],
  ◌∷◌, arith, if◌then◌else◌, Bool-cases,
}
use repo_agent.Prelude.Words.{Text, mem_text, add_new, add_new-mem_text}
use repo_agent.Prelude.Json.{Json, get_field, has_field}
use repo_agent.Orchestration.Models.{AgentName, same_agent, AgentOutput}
use repo_agent.Orchestration.Loop.{Outputs}
use repo_agent.Orchestration.Evidence.Findings.{output_of}
use repo_agent.Orchestration.Evidence.Merge.Values.{joint_value, HasKeys, get_field-both}
use repo_agent.Orchestration.Evidence.Merge.{
  fields_of, both_ok, merge_one, merged_value, put_output, merge_agent_outputs,
}

-- The record that stands for two outputs of an agent, from whether the old one and the new one are ok.
-- When both are, each key of the new one's fields has the joint value, and each other key the old one's
-- value; the error is the new one's. Else it is the one that is ok, or the new one if none is, but for
-- its tools.
unfoldable pub IsChosen :
    Bool → Bool → AgentOutput Json → AgentOutput Json → AgentOutput Json → Type 0
IsChosen true true old new o =
    ((k : String)
      → get_field k (fields_of o.output)
        ≡ joint_value (has_field k (fields_of new.output)) (get_field k (fields_of old.output))
            (get_field k (fields_of new.output)))
    × (o.error ≡ new.error)
IsChosen true false old new o = o ≡ record old { tools_invoked = o.tools_invoked }
IsChosen false x old new o = o ≡ record new { tools_invoked = o.tools_invoked }

IsMerge : AgentOutput Json → AgentOutput Json → AgentOutput Json → Type 0
unfolding IsChosen
IsMerge old new o =
    (o.ok ≡ (old.ok || new.ok))
    × ((t : Text)
        → mem_text t o.tools_invoked
          ≡ (mem_text t old.tools_invoked || mem_text t new.tools_invoked))
    × IsChosen old.ok new.ok old new o

-- For one agent, what the result has for it: the entry of the one side that has one, or what
-- `IsMerge` says of the entries of both.
unfoldable pub Keeps :
    Option (AgentOutput Json) → Option (AgentOutput Json) → Option (AgentOutput Json) → Type 0
unfolding IsMerge
Keeps none right result = result ≡ right
Keeps (some old) none result = result ≡ some old
Keeps (some old) (some new) none = ⊥
Keeps (some old) (some new) (some o) = IsMerge old new o

merge_one-ok :
    (previous incoming : AgentOutput Json)
    → (merge_one previous incoming).ok ≡ (previous.ok || incoming.ok)
unfolding merge_one both_ok
merge_one-ok previous incoming = ground arith

merge_one-tools :
    (previous incoming : AgentOutput Json)
    → (merge_one previous incoming).tools_invoked
      ≡ add_new previous.tools_invoked incoming.tools_invoked
unfolding merge_one both_ok
merge_one-tools previous incoming = ground arith

merge_one-IsChosen :
    (x y : Bool) (previous incoming : AgentOutput Json)
    → previous.ok ≡ x
    → incoming.ok ≡ y
    → HasKeys (fields_of incoming.output)
    → IsChosen x y previous incoming (merge_one previous incoming)
unfolding merge_one both_ok IsChosen
merge_one-IsChosen true true previous incoming h k d =
    rw (k, merge_one, h) ((λ j. get_field-both j previous.output incoming.output d), refl)
merge_one-IsChosen true false previous incoming h k d = rw (k, merge_one, h) refl
merge_one-IsChosen false true previous incoming h k d = rw (k, merge_one, h) refl
merge_one-IsChosen false false previous incoming h k d = rw (k, merge_one, h) refl

Keeps-merge_one :
    (previous incoming : AgentOutput Json)
    → HasKeys (fields_of incoming.output)
    → Keeps (some previous) (some incoming) (some (merge_one previous incoming))
unfolding Keeps
Keeps-merge_one previous incoming d = (
  merge_one-ok previous incoming,
  (λ t.
      ap (mem_text t) (merge_one-tools previous incoming)
      ∙ add_new-mem_text t previous.tools_invoked incoming.tools_invoked),
  merge_one-IsChosen previous.ok incoming.ok previous incoming refl refl d,
)

same_agent_sound : (a b : AgentName) → same_agent a b ≡ true → a ≡ b
unfolding same_agent
same_agent_sound a b h = ground arith

same_agent_sym : (a b : AgentName) → same_agent a b ≡ same_agent b a
unfolding same_agent
same_agent_sym a b = ground arith

clash : true ≡ false → ⊥
clash e = subst (λ b. if b then Unit else ⊥) e tt

entry_if :
    (x : Bool) (a c : AgentName) (o p : AgentOutput Json) (outputs rest : Outputs Json)
    → output_of a (if x then (c, o) ∷ outputs else (c, p) ∷ rest) ≡ (
        if x
        then (if same_agent c a then some o else output_of a outputs)
        else (if same_agent c a then some p else output_of a rest))
unfolding output_of
entry_if true a c o p outputs rest = refl
entry_if false a c o p outputs rest = refl

-- The tests of an entry's agent c against a and b agree with the test of b against a.
put_if :
    {A : Type 0}
    → (o p r : A) (cb ca ba : Bool) → (cb ≡ true → ca ≡ ba)
    → (ba ≡ true → ca ≡ cb)
    → (if cb then (if ca then o else r) else (if ca then p else (if ba then o else r)))
      ≡ (if ba then o else (if ca then p else r))
put_if o p r true true true h k = refl
put_if o p r true true false h k = absurd (clash (h refl))
put_if o p r true false true h k = absurd (clash (sym (h refl)))
put_if o p r true false false h k = refl
put_if o p r false true true h k = absurd (clash (k refl))
put_if o p r false true false h k = refl
put_if o p r false false true h k = refl
put_if o p r false false false h k = refl

output_of-put_output :
    (a b : AgentName) (o : AgentOutput Json) (outputs : Outputs Json)
    → output_of a (put_output b o outputs)
      ≡ (if same_agent b a then some o else output_of a outputs)
unfolding output_of put_output
output_of-put_output a b o [] = refl
output_of-put_output a b o ((c, p) ∷ outputs) =
    entry_if (same_agent c b) a c o p outputs (put_output b o outputs)
    ∙ ap
        (λ x.
          if same_agent c b
          then (if same_agent c a then some o else output_of a outputs)
          else (if same_agent c a then some p else x))
        (output_of-put_output a b o outputs)
    ∙ put_if _ _ _ (same_agent c b) (same_agent c a) (same_agent b a)
        (λ h. ap (λ x. same_agent x a) (same_agent_sound c b h))
        (λ h. ap (same_agent c) (sym (same_agent_sound b a h)))

-- A dictionary of dictionaries: no agent has two entries, and no output has a key twice.
unfoldable pub IsKeyed : Outputs Json → Type 0
unfolding output_of
IsKeyed [] = Unit
IsKeyed ((a, o) ∷ outputs) =
    (output_of a outputs ≡ none) × HasKeys (fields_of o.output) × IsKeyed outputs

Keeps-none : (left : Option (AgentOutput Json)) → Keeps left none left
unfolding Keeps
Keeps-none none = refl
Keeps-none (some o) = refl

Keeps-same : (left result : Option (AgentOutput Json)) → Keeps left none result → result ≡ left
unfolding Keeps
Keeps-same none result k = k
Keeps-same (some o) result k = k

Keeps-merged_value :
    (left : Option (AgentOutput Json)) (o : AgentOutput Json)
    → HasKeys (fields_of o.output)
    → Keeps left (some o) (some (merged_value left o))
unfolding merged_value Keeps
Keeps-merged_value none o d = refl
Keeps-merged_value (some p) o d = Keeps-merge_one p o d

rewritten :
    {left left' right right' : Option (AgentOutput Json)}
    → (result : Option (AgentOutput Json)) → left ≡ left'
    → right ≡ right'
    → Keeps left right result
    → Keeps left' right' result
rewritten {left = l} {right' = r'} result e d k =
    subst (λ x. Keeps x r' result) e (subst (λ x. Keeps l x result) d k)

Keeps-step :
    (left right middle result : Option (AgentOutput Json))
    → Keeps left right middle
    → Keeps middle none result
    → Keeps left right result
Keeps-step left right middle result h k =
    subst (Keeps left right) (sym (Keeps-same middle result k)) h

-- What keeps the entry put in the first dictionary and the rest of the second keeps the two.
Keeps-entry :
    (a b : AgentName) (merged : Outputs Json) (o : AgentOutput Json) (extra : Outputs Json)
    (result : Option (AgentOutput Json))
    → output_of b extra ≡ none
    → HasKeys (fields_of o.output)
    → Keeps
        (output_of a (put_output b (merged_value (output_of b merged) o) merged))
        (output_of a extra)
        result
    → Keeps (output_of a merged) (output_of a ((b, o) ∷ extra)) result
unfolding output_of
Keeps-entry a b merged o extra result n d k = elim (Bool-cases (same_agent b a)) [
  | inl h ↦
      let e = same_agent_sound b a h in
      let there =
        output_of-put_output a b (merged_value (output_of b merged) o) merged
        ∙ ap (λ x. if x then some (merged_value (output_of b merged) o) else output_of a merged) h
        ∙ ap (λ x. some (merged_value (output_of x merged) o)) e in
      let gone = ap (λ x. output_of x extra) (sym e) ∙ n in
      rw h (
        Keeps-step _ _ (some (merged_value (output_of a merged) o)) result
          (Keeps-merged_value (output_of a merged) o d) (rewritten result there gone k))
  | inr h ↦ rw h (
      rewritten result
        (output_of-put_output a b _ merged
          ∙ ap (λ x. if x then some (merged_value (output_of b merged) o) else output_of a merged)
              h)
        refl k)
]

-- When the second dictionary has no agent twice and none of its outputs a key twice, an agent that one
-- of the dictionaries has alone has the same entry in the result, and an agent in neither has none.
-- An agent in both has an entry that is ok exactly when one of the two is, and has the tools of both.
-- If both are ok, its output's fields are those of both: under a key of the second, the two lists one
-- behind the other, or the second's value if one is no list; under any other key the first's value;
-- and the error is the second's. If one alone is ok, the entry is that one's but for the tools; what
-- failed is dropped. If none is ok, it is the second's but for the tools.
pub merge_agent_outputs-Keeps :
    (a : AgentName) (merged extra : Outputs Json)
    → IsKeyed extra
    → Keeps
        (output_of a merged)
        (output_of a extra)
        (output_of a (merge_agent_outputs merged extra))
unfolding merge_agent_outputs IsKeyed
merge_agent_outputs-Keeps a merged [] d = Keeps-none (output_of a merged)
merge_agent_outputs-Keeps a merged ((b, o) ∷ extra) (n, f, d) =
    Keeps-entry a b merged o extra
      (output_of a
        (merge_agent_outputs (put_output b (merged_value (output_of b merged) o) merged) extra))
      n f
      (merge_agent_outputs-Keeps a (put_output b (merged_value (output_of b merged) o) merged) extra
        d)
