-- ===== src/Observability/Ledger/Totals.antt =====
-- The totals of a request against its calls, its purposes and its models.
use repo_agent.Prelude.{ℕ, ◌+◌, ◌*◌, ◌≤◌, String, ◌≡◌, refl, ap, ◌∙◌, [], ◌∷◌, arith}
use repo_agent.Prelude.Dict.{Dict}
use repo_agent.Observability.Ledger.{
  TokenUsage, LlmSettings, Bucket, empty_bucket, Entry, empty_entry, round_cost, add_to_bucket,
  modify, add_call, uncached_prompt_tokens, call_cost, entry_totals, model_of,
}

-- A field, added up over the buckets.
unfoldable pub sum_of : (Bucket → ℕ) → Dict Bucket → ℕ
sum_of f [] = 0
sum_of f ((k, b) ∷ d) = f b + sum_of f d

module _ (f : Bucket → ℕ) (k : String) (g : Bucket → Bucket) (c : ℕ)
    (zeroed : f empty_bucket ≡ 0) where
  sum_of-modify :
      ((b : Bucket) → f (g b) ≡ f b + c)
      → (d : Dict Bucket) → sum_of f (modify k g d) ≡ sum_of f d + c
  unfolding sum_of modify
  sum_of-modify h [] = omega (arith, h empty_bucket)
  sum_of-modify h ((j, b) ∷ d) = ground (arith, h b, sum_of-modify h d)

  -- The same for a field that is rounded each time.
  sum_of-modify_near :
      ((b : Bucket) → (f (g b) ≤ f b + c + 5) × (f b + c ≤ f (g b) + 5))
      → (d : Dict Bucket)
      → (sum_of f (modify k g d) ≤ sum_of f d + c + 5)
        × (sum_of f d + c ≤ sum_of f (modify k g d) + 5)
  unfolding sum_of modify
  sum_of-modify_near h [] = (omega (arith, h empty_bucket), omega (arith, h empty_bucket))
  sum_of-modify_near h ((j, b) ∷ d) = ground (arith, h b, sum_of-modify_near h d)

pub round_cost_near : (x : ℕ) → (round_cost x ≤ x + 5) × (x ≤ round_cost x + 5)
unfolding round_cost
round_cost_near x = ground arith

-- A total of the entry is the sum of the buckets, by purpose and by model.
abbrev pub Agrees : (Bucket → ℕ) → ℕ → Entry → Type 0
Agrees f n e = (sum_of f e.by_purpose ≡ n) × (sum_of f e.by_model ≡ n)

-- Two costs differ by at most `slack`.
abbrev pub Near : ℕ → ℕ → ℕ → Type 0
Near slack n m = (n ≤ m + slack) × (m ≤ n + slack)

pub record Balanced (slack : ℕ) (e : Entry) : Type 0 where
  pub prompt : Agrees (λ b. b.prompt) e.prompt e
  pub completion : Agrees (λ b. b.completion) e.completion e
  pub total : Agrees (λ b. b.total) e.total e
  pub cached : Agrees (λ b. b.cached_prompt) e.cached_prompt e
  pub uncached : Agrees (λ b. b.uncached_prompt) e.uncached_prompt e
  pub calls : Agrees (λ b. b.llm_calls) e.llm_calls e
  pub cost_by_purpose : Near (slack + 5 * e.llm_calls) (sum_of (λ b. b.cost) e.by_purpose) e.cost
  pub cost_by_model : Near (slack + 5 * e.llm_calls) (sum_of (λ b. b.cost) e.by_model) e.cost

pub empty_entry-Balanced : Balanced 0 empty_entry
unfolding sum_of
empty_entry-Balanced = omega arith

add_to_bucket-cost :
    (u : TokenUsage) (cost : ℕ) (model : String) (b : Bucket)
    → Near 5 (add_to_bucket u cost model b).cost (b.cost + cost)
unfolding add_to_bucket
add_to_bucket-cost u cost model b = round_cost_near (b.cost + cost)

module _ (s : LlmSettings) (purpose : String) (u : TokenUsage) (e : Entry) where
  add_call-Agrees :
      (f : Bucket → ℕ) (c n : ℕ)
      → f empty_bucket ≡ 0
      → ((cost : ℕ) (model : String) (b : Bucket) → f (add_to_bucket u cost model b) ≡ f b + c)
      → Agrees f n e
      → Agrees f (n + c) (add_call s purpose u e)
  unfolding add_call
  add_call-Agrees f c n z adds h = (
    sum_of-modify f purpose (add_to_bucket u (call_cost s purpose u) (model_of s purpose u.model)) c
          z (adds _ _) e.by_purpose
        ∙ ap (λ m. m + c) h.0,
    sum_of-modify f (model_of s purpose u.model)
          (add_to_bucket u (call_cost s purpose u) (model_of s purpose u.model)) c z (adds _ _)
          e.by_model
        ∙ ap (λ m. m + c) h.1,
  )

  add_call-Near :
      (slack : ℕ) (k : String) (d : Dict Bucket) (cost : ℕ) (model : String)
      → Near (slack + 5 * e.llm_calls) (sum_of (λ b. b.cost) d) e.cost
      → Near
          (slack + 5 * (e.llm_calls + 1))
          (sum_of (λ b. b.cost) (modify k (add_to_bucket u cost model) d))
          (e.cost + cost)
  add_call-Near slack k d cost model h = omega (
    arith,
    sum_of-modify_near (λ b. b.cost) k (add_to_bucket u cost model) cost refl
        (add_to_bucket-cost u cost model) d,
  )

  pub add_call-Balanced : {slack : ℕ} → Balanced slack e → Balanced slack (add_call s purpose u e)
  unfolding add_call
  add_call-Balanced {slack} v = record {
    prompt =
        add_call-Agrees (λ b. b.prompt) u.prompt_tokens e.prompt refl
          (λ c m b. unfold add_to_bucket in refl) v.prompt;
    completion =
        add_call-Agrees (λ b. b.completion) u.completion_tokens e.completion refl
          (λ c m b. unfold add_to_bucket in refl) v.completion;
    total =
        add_call-Agrees (λ b. b.total) u.total_tokens e.total refl
          (λ c m b. unfold add_to_bucket in refl) v.total;
    cached =
        add_call-Agrees (λ b. b.cached_prompt) u.cached_prompt_tokens e.cached_prompt refl
          (λ c m b. unfold add_to_bucket in refl) v.cached;
    uncached =
        add_call-Agrees (λ b. b.uncached_prompt) (uncached_prompt_tokens u) e.uncached_prompt refl
          (λ c m b. unfold add_to_bucket in refl) v.uncached;
    calls =
        add_call-Agrees (λ b. b.llm_calls) 1 e.llm_calls refl
          (λ c m b. unfold add_to_bucket in refl) v.calls;
    cost_by_purpose =
        add_call-Near slack purpose e.by_purpose (call_cost s purpose u)
          (model_of s purpose u.model) v.cost_by_purpose;
    cost_by_model =
        add_call-Near slack (model_of s purpose u.model) e.by_model (call_cost s purpose u)
          (model_of s purpose u.model) v.cost_by_model;
  }

-- Reading the totals rounds the cost once more.
pub entry_totals-Balanced : (e : Entry) → Balanced 0 e → Balanced 5 (entry_totals e)
unfolding entry_totals
entry_totals-Balanced e v = record {
  prompt = v.prompt;
  completion = v.completion;
  total = v.total;
  cached = v.cached;
  uncached = v.uncached;
  calls = v.calls;
  cost_by_purpose = omega (arith, round_cost_near e.cost, v.cost_by_purpose);
  cost_by_model = omega (arith, round_cost_near e.cost, v.cost_by_model);
}
