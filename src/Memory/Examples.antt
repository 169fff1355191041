-- ===== src/Memory/Examples.antt =====
-- A session with three turns of one token each, of which one is to be kept.
use repo_agent.Prelude.{
  ℕ, ◌+◌, ◌-◌, ◌≤◌, ◌<◌, String, ◌≡◌, refl, ◌≢◌, Option, none, some, List, [], ◌∷◌, ◌++◌, map,
  arith, length, drop,
}
use repo_agent.Prelude.Int.{pos, clamp}
use repo_agent.Prelude.Dict.{lookup}
use repo_agent.Prelude.Text.{codes, decimal, skip_spaces, rstrip}
use repo_agent.Memory.Tables.{
  Session, Turn, Db, MemoryService, turn_from_row, fetch_unfolded, estimate_tokens, total_estimate,
}
use repo_agent.Memory.Summary.{Completion, parsed, summary_is, summarize_session, append_turn}
use repo_agent.Memory.Recall.{get_context}
use repo_agent.Memory.Responses.{absent, fresh, cache_get, cache_put}
use repo_agent.Memory.Recall.Window.{IsLongest, get_context-window}
use repo_agent.Memory.Summary.Folding.{
  IsOrdered, Above, summarize_session-keeps, summarize_session-folds_none,
}
use repo_agent.Memory.Responses.Freshness.{cache_get-put}

abbrev turn : ℕ → Turn
turn i = record {
  id = i;
  session_id = "s";
  role = codes "user";
  content = codes "ok";
  created_at = i;
  token_estimate = 1;
  folded_at = none;
}

abbrev talk : Session
talk = record { created_at = 0; summary = []; summary_token_count = 0 }

abbrev three_turns : Db
three_turns = record {
  sessions = ("s", talk) ∷ [];
  turns = turn 1 ∷ turn 2 ∷ turn 3 ∷ [];
  next_id = 4;
  response_cache = [];
}

abbrev keeping : ℕ → MemoryService
keeping k = record { cache_ttl = pos 60; token_budget = pos 2; recent_turns_to_keep = pos k }

abbrev brief : List ℕ → Completion
brief prompt = parsed (codes " done ")

ten_digits : decimal 1024 ≡ codes "1024"
unfolding decimal
ten_digits = refl

two_tokens : estimate_tokens (codes "fives") ≡ 2
unfolding estimate_tokens
two_tokens = refl

-- The fourth turn breaks the budget of two tokens: three turns are folded.
fourth_turn :
    map
      (λ t. t.id)
      (fetch_unfolded "s"
        (append_turn (keeping 1) brief 9 9 "s" (codes "user") (codes "hi") three_turns).1.turns)
    ≡ 4 ∷ []
unfolding append_turn fetch_unfolded lookup summarize_session
fourth_turn = refl

two_fit : map (λ t. t.id) (get_context "s" (pos 2) three_turns).recent_turns ≡ 2 ∷ 3 ∷ []
unfolding get_context lookup
two_fit = refl

get_context-window_example :
    (older recent : List Turn) × (fetch_unfolded "s" three_turns.turns ≡ older ++ recent)
    × ((get_context "s" (pos 2) three_turns).recent_turns ≡ map turn_from_row recent)
    × (total_estimate recent ≤ clamp (pos 2) - 0)
    × IsLongest (clamp (pos 2) - 0) older recent
unfolding lookup
get_context-window_example = get_context-window "s" (pos 2) three_turns talk refl

in_order : IsOrdered three_turns.turns
unfolding IsOrdered Above
in_order = ((omega arith, (omega arith, tt)), ((omega arith, tt), (tt, tt)))

unfolded_three : fetch_unfolded "s" three_turns.turns ≡ three_turns.turns
unfolding fetch_unfolded
unfolded_three = refl

summarize_session-keeps_example :
    ((summarize_session (keeping 1) brief 9 "s" three_turns).0
      ≡ summary_is (rstrip (skip_spaces (codes " done "))))
    × (lookup "s" (summarize_session (keeping 1) brief 9 "s" three_turns).1.sessions
        ≡ some (record talk {
          summary = rstrip (skip_spaces (codes " done "));
          summary_token_count = estimate_tokens (rstrip (skip_spaces (codes " done ")));
        }))
    × (fetch_unfolded "s" (summarize_session (keeping 1) brief 9 "s" three_turns).1.turns
        ≡ drop
            (length (fetch_unfolded "s" three_turns.turns) - 1)
            (fetch_unfolded "s" three_turns.turns))
    × (length (fetch_unfolded "s" (summarize_session (keeping 1) brief 9 "s" three_turns).1.turns)
        ≡ 1)
unfolding lookup
summarize_session-keeps_example =
    summarize_session-keeps (keeping 1) brief 9 "s" three_turns talk 0 (codes " done ") in_order
      refl refl (rw unfolded_three (omega arith)) refl

summarize_session-folds_none_example :
    (summarize_session (keeping 0) brief 9 "s" three_turns).1.turns ≡ three_turns.turns
summarize_session-folds_none_example =
    summarize_session-folds_none (keeping 0) brief 9 "s" three_turns refl

abbrev as_it_is : List ℕ → List ℕ
as_it_is s = s

abbrev reads_all : List ℕ → Option (List ℕ)
reads_all s = some s

cache_get-put_example :
    let put = cache_put as_it_is reads_all 100 "k" (codes "x") three_turns in
    (130 ≤ 100 + 60
      → (cache_get as_it_is reads_all (keeping 1) 130 "k" put).0 ≡ fresh (some (codes "x")) 100)
    × (100 + 60 < 130
        → ((cache_get as_it_is reads_all (keeping 1) 130 "k" put).0 ≡ absent)
          × (lookup "k" (cache_get as_it_is reads_all (keeping 1) 130 "k" put).1.response_cache
              ≡ none))
    × ((other : String)
        → "k" ≢ other
        → (cache_get as_it_is reads_all (keeping 1) 130 other put).0
          ≡ (cache_get as_it_is reads_all (keeping 1) 130 other three_turns).0)
cache_get-put_example =
    cache_get-put as_it_is reads_all (keeping 1) 60 100 130 "k" (codes "x") three_turns refl refl
