-- ===== src/Observability/Ledger/Entries.antt =====
-- Requests in the ledger: what one request's calls leave of it, and of the others.
use repo_agent.Prelude.{
  ℕ, ◌+◌, ◌<◌, String, ◌≡◌, sym, ◌∙◌, ◌≢◌, ◌⊎◌, inl, inr, true, false, none, some, List, [], ◌∷◌,
  arith, str_eq, eq_iff, if◌then◌else◌, Option-cases, length,
}
use repo_agent.Prelude.Dict.{lookup, insert, lookup-insert, lookup-erase}
use repo_agent.Observability.Ledger.{
  TokenUsage, LlmSettings, Entry, empty_entry, add_call, Ledger, entry_of, open_request,
  record_usage, entry_totals, snapshot, close_request, RawUsage, usage_from_payload, record_payload,
  uncached_prompt_tokens, missing, typed, untyped,
}
use repo_agent.Observability.Ledger.Totals.{
  Balanced, add_call-Balanced, empty_entry-Balanced, entry_totals-Balanced,
}

-- The calls of one request, recorded in turn.
unfoldable pub record_calls : LlmSettings → String → List (String × TokenUsage) → Ledger → Ledger
record_calls s cid [] l = l
record_calls s cid ((purpose, u) ∷ calls) l =
    record_calls s cid calls (record_usage s cid purpose u l)

-- The calls of one request, added to an entry.
unfoldable pub add_calls : LlmSettings → List (String × TokenUsage) → Entry → Entry
add_calls s [] e = e
add_calls s ((purpose, u) ∷ calls) e = add_calls s calls (add_call s purpose u e)

unfoldable pub sum_tokens : (TokenUsage → ℕ) → List (String × TokenUsage) → ℕ
sum_tokens f [] = 0
sum_tokens f ((purpose, u) ∷ calls) = f u + sum_tokens f calls

lookup-record_calls :
    (s : LlmSettings) (cid j : String) (calls : List (String × TokenUsage)) (l : Ledger) (e : Entry)
    → lookup cid l ≡ some e
    → lookup j (record_calls s cid calls l)
      ≡ (if str_eq cid j then some (add_calls s calls e) else lookup j l)
unfolding record_calls add_calls record_usage
lookup-record_calls s cid j [] l e h = ground (arith, eq_iff cid j)
lookup-record_calls s cid j ((purpose, u) ∷ calls) l e h = ground (
  arith,
  eq_iff cid j,
  eq_iff cid cid,
  lookup-insert cid cid (add_call s purpose u (entry_of (lookup cid l))) l,
  lookup-insert cid j (add_call s purpose u (entry_of (lookup cid l))) l,
  lookup-record_calls s cid j calls (record_usage s cid purpose u l) (add_call s purpose u e),
)

add_calls-Balanced :
    (s : LlmSettings) (calls : List (String × TokenUsage)) (e : Entry)
    → Balanced 0 e
    → Balanced 0 (add_calls s calls e)
unfolding add_calls
add_calls-Balanced s [] e v = v
add_calls-Balanced s ((purpose, u) ∷ calls) e v =
    add_calls-Balanced s calls (add_call s purpose u e) (add_call-Balanced s purpose u e v)

-- What the calls of a request add up to.
abbrev pub Sums : List (String × TokenUsage) → Entry → Entry → Type 0
Sums calls e f =
    (f.prompt ≡ e.prompt + sum_tokens (λ u. u.prompt_tokens) calls)
    × (f.completion ≡ e.completion + sum_tokens (λ u. u.completion_tokens) calls)
    × (f.total ≡ e.total + sum_tokens (λ u. u.total_tokens) calls)
    × (f.cached_prompt ≡ e.cached_prompt + sum_tokens (λ u. u.cached_prompt_tokens) calls)
    × (f.uncached_prompt ≡ e.uncached_prompt + sum_tokens uncached_prompt_tokens calls)
    × (f.llm_calls ≡ e.llm_calls + length calls)

add_calls-Sums :
    (s : LlmSettings) (calls : List (String × TokenUsage)) (e : Entry)
    → Sums calls e (add_calls s calls e)
unfolding add_calls sum_tokens add_call
add_calls-Sums s [] e = omega arith
add_calls-Sums s ((purpose, u) ∷ calls) e =
    omega (arith, add_calls-Sums s calls (add_call s purpose u e))

module _ (s : LlmSettings) (cid : String) (calls : List (String × TokenUsage)) (l : Ledger) where
  after : Ledger
  after = record_calls s cid calls (open_request cid l)

  lookup-after :
      (j : String)
      → lookup j after ≡ (if str_eq cid j then some (add_calls s calls empty_entry) else lookup j l)
  unfolding after open_request
  lookup-after j = ground (
    arith,
    eq_iff cid j,
    eq_iff cid cid,
    lookup-insert cid cid empty_entry l,
    lookup-insert cid j empty_entry l,
    lookup-record_calls s cid j calls (insert cid empty_entry l) empty_entry,
  )

  lookup-after_self : lookup cid after ≡ some (add_calls s calls empty_entry)
  lookup-after_self = ground (arith, lookup-after cid, eq_iff cid cid)

  snapshot-after :
      snapshot cid (record_calls s cid calls (open_request cid l))
      ≡ entry_totals (add_calls s calls empty_entry)
  unfolding snapshot after
  snapshot-after = ground (arith, lookup-after_self)

  close-after :
      (close_request cid (record_calls s cid calls (open_request cid l))).0
      ≡ entry_totals (add_calls s calls empty_entry)
  unfolding close_request after
  close-after = ground (arith, lookup-after_self)

  snapshot-close :
      snapshot cid (close_request cid (record_calls s cid calls (open_request cid l))).1
      ≡ empty_entry
  unfolding snapshot close_request after
  snapshot-close = ground (arith, eq_iff cid cid, lookup-erase cid cid after)

  -- The snapshot of a request that was opened and then made these calls has the sums of their tokens
  -- and their number. Each of these totals is the sum of the buckets by purpose, and by model; the
  -- costs of the buckets add up to the total cost up to half a rounding unit for each call and one
  -- for the total. Closing the request returns the same totals, and a later snapshot is empty.
  pub snapshot-totals :
      let m = record_calls s cid calls (open_request cid l) in
      Sums calls empty_entry (snapshot cid m)
      × Balanced 5 (snapshot cid m)
      × ((close_request cid m).0 ≡ snapshot cid m)
      × (snapshot cid (close_request cid m).1 ≡ empty_entry)
  unfolding entry_totals
  snapshot-totals =
      let e = add_calls s calls empty_entry in
      let v = add_calls-Balanced s calls empty_entry empty_entry-Balanced in
      (
        rw snapshot-after (add_calls-Sums s calls empty_entry),
        rw snapshot-after (entry_totals-Balanced e v),
        close-after ∙ sym snapshot-after,
        snapshot-close,
      )

  -- Opening a request, recording its calls and closing it leave the snapshot of every other request
  -- as it was.
  pub snapshot-isolated :
      (j : String)
      → cid ≢ j
      → (snapshot j (record_calls s cid calls (open_request cid l)) ≡ snapshot j l)
        × (snapshot j (close_request cid (record_calls s cid calls (open_request cid l))).1
            ≡ snapshot j l)
  unfolding snapshot close_request after
  snapshot-isolated j h = (
    ground (arith, lookup-after j, eq_iff cid j),
    ground (arith, lookup-after j, eq_iff cid j, lookup-erase cid j after),
  )

usage_from_payload-counts :
    (raw : RawUsage) (u : TokenUsage)
    → usage_from_payload raw ≡ some u
    → 0 < u.total_tokens + u.prompt_tokens
unfolding usage_from_payload
usage_from_payload-counts missing u h = cc
usage_from_payload-counts (typed x) u h = ground arith
usage_from_payload-counts (untyped none) u h = cc
usage_from_payload-counts (untyped (some x)) u h = ground arith

-- A payload is recorded, and answered with `true`, exactly when it has a usage that is valid and
-- counts tokens, in total or in the prompt; otherwise the ledger stays as it was.
pub record_payload-found :
    (s : LlmSettings) (cid purpose : String) (raw : RawUsage) (l : Ledger)
    → let r = record_payload s cid purpose raw l in
      ((r.0 ≡ false) × (r.1 ≡ l) × (usage_from_payload raw ≡ none))
      ⊎ ((u : TokenUsage) × (r.0 ≡ true)
          × (r.1 ≡ record_usage s cid purpose u l)
          × (usage_from_payload raw ≡ some u)
          × (0 < u.total_tokens + u.prompt_tokens))
unfolding record_payload
record_payload-found s cid purpose raw l = elim (Option-cases (usage_from_payload raw)) [
  | inl e ↦ inl (ground arith, ground arith, e)
  | inr (u, e) ↦ inr (u, ground arith, ground arith, e, usage_from_payload-counts raw u e)
]
