-- ===== src/Gateway/Jobs/Trouble.antt =====
-- What a failed dispatch and a silent indexer do to the outcome.
use repo_agent.Prelude.Words.{is_text}
use repo_agent.Prelude.{
  ℕ, ◌+◌, ◌≡◌, refl, ap, ◌∙◌, Bool, true, false, not, ◌&&◌, ◌||◌, Option, none, some, List, [], ◌∷◌,
  arith, ltb, leb, ◌==◌, if◌then◌else◌,
}
use repo_agent.Prelude.Json.{Json, null, object, Fields, truthy, get_field}
use repo_agent.Gateway.Jobs.{
  Dispatch, in_flight, returned, raised, Round, Outcome, reported, dispatch_lost, not_finished,
  not_started, Follow, note_dispatch, note_status, overdue, after_status, poll, or_go_on,
  follow_index_job, as_report, baseline_report, unreachable_poll_limit,
}

unfoldable pub is_lost : Outcome → Bool
is_lost (dispatch_lost t) = true
is_lost o = false

unfoldable pub is_silent : Option Fields → Bool
is_silent none = true
is_silent (some fs) = false

-- No round after one that could not reach the indexer fails to reach it as well; `silent` says whether
-- the round before did.
unfoldable pub no_two_silent : Bool → List Round → Bool
unfolding is_silent
no_two_silent silent [] = true
no_two_silent silent (r ∷ rs) =
    not (silent && is_silent r.seen) && no_two_silent (is_silent r.seen) rs

is_lost_some : Option Outcome → Bool
is_lost_some none = false
is_lost_some (some o) = is_lost o

is_lost-or_go_on :
    (o : Option Outcome) (later : Outcome)
    → is_lost_some o ≡ false
    → is_lost later ≡ false
    → is_lost (or_go_on o later) ≡ false
unfolding is_lost_some or_go_on
is_lost-or_go_on none later h k = k
is_lost-or_go_on (some o) later h k = h

is_lost-if :
    (c : Bool) (o : Outcome) (later : Option Outcome)
    → is_lost o ≡ false
    → is_lost_some later ≡ false
    → is_lost_some (if c then some o else later) ≡ false
unfolding is_lost_some
is_lost-if true o later h k = h
is_lost-if false o later h k = k

is_lost-off :
    (c : Bool) (o : Outcome) (later : Option Outcome)
    → c ≡ false
    → is_lost_some later ≡ false
    → is_lost_some (if c then some o else later) ≡ false
is_lost-off true o later h k = cc
is_lost-off false o later h k = k

lost_unless :
    (text : Bool) (n : ℕ) (o : Outcome) (later : Option Outcome)
    → (n == 0) ≡ true
    → is_lost_some later ≡ false
    → is_lost_some (if text && leb unreachable_poll_limit (n + 1) then some o else later) ≡ false
lost_unless text n o later h k =
    is_lost-off (text && leb unreachable_poll_limit (n + 1)) o later (ground (arith, h)) k

reports_held :
    (c : Bool) (v : Json) (old : Fields) (later : Option Outcome) (last : Outcome)
    → c ≡ true
    → v ≡ object old
    → or_go_on (if c then some (reported (as_report v)) else later) last ≡ reported old
unfolding or_go_on as_report
reports_held true v old later last h k = ap (λ z. reported (as_report z)) k
reports_held false v old later last h k = cc

reached :
    (seen : Option Fields) (s : Follow)
    → (is_silent seen || (note_status seen s).unreachable == 0) ≡ true
unfolding is_silent note_status
reached none s = refl
reached (some fs) s = refl

module _ (same_value : Json → Json → Bool) (baseline : Option Fields)
    (deadline start_deadline : ℕ) where
  is_lost-overdue :
      (now : ℕ) (s : Follow) → is_lost_some (overdue deadline start_deadline now s) ≡ false
  unfolding overdue is_lost is_lost_some
  is_lost-overdue now s = is_lost-if (ltb deadline now) not_finished _ refl (
      is_lost-if (not s.observed_running && ltb start_deadline now) (not_started s.dispatch_error)
        none refl refl)

  is_lost-after_status :
      (silent : Bool) (seen : Option Fields) (now : ℕ) (s : Follow)
      → (silent || s.unreachable == 0) ≡ true
      → (silent && is_silent seen) ≡ false
      → is_lost_some (after_status same_value baseline deadline start_deadline seen now s) ≡ false
  unfolding after_status is_lost is_silent
  is_lost-after_status silent none now s u h =
      lost_unless (is_text s.dispatch_error) s.unreachable (dispatch_lost s.dispatch_error) _
        (ground (arith, u, h)) (is_lost-overdue now (note_status none s))
  is_lost-after_status silent (some fs) now s u h =
      is_lost-if _ _ _ refl (is_lost-overdue now (note_status (some fs) s))

  is_lost-poll :
      (silent : Bool) (d : Dispatch) (seen : Option Fields) (now : ℕ) (s : Follow)
      → (silent || s.unreachable == 0) ≡ true
      → (silent && is_silent seen) ≡ false
      → is_lost_some (poll same_value baseline deadline start_deadline d seen now s) ≡ false
  unfolding poll is_lost is_lost_some note_dispatch
  is_lost-poll silent (returned v) seen now s u h = refl
  is_lost-poll silent in_flight seen now s u h = is_lost-after_status silent seen now s u h
  is_lost-poll silent (raised t) seen now s u h =
      is_lost-after_status silent seen now (note_dispatch (raised t) s) u h

  -- If no two rounds in a row fail to reach the indexer, a failure of the dispatch alone does not end
  -- the following: it never ends with the error of the dispatch.
  pub follow_index_job-not_lost :
      (silent : Bool) (rs : List Round) (s : Follow)
      → (silent || s.unreachable == 0) ≡ true
      → no_two_silent silent rs ≡ true
      → is_lost (follow_index_job same_value baseline deadline start_deadline rs s) ≡ false
  unfolding follow_index_job no_two_silent is_lost
  follow_index_job-not_lost silent [] s u h = refl
  follow_index_job-not_lost silent (r ∷ rs) s u h =
      is_lost-or_go_on _ _ (is_lost-poll silent r.dispatch r.seen r.now s u (ground (arith, h))) (
        follow_index_job-not_lost (is_silent r.seen) rs
          (note_status r.seen (note_dispatch r.dispatch s))
          (reached r.seen (note_dispatch r.dispatch s)) (ground (arith, h)))

module _ (same_value : Json → Json → Bool) (deadline start_deadline : ℕ) where
  -- When the first status cannot be fetched, a report that an idle indexer still holds from an earlier
  -- run ends the following at the first round, although the dispatch of the new run is in flight.
  pub follow_index_job-stale :
      (fs old : Fields) (now : ℕ) (rs : List Round) (s : Follow)
      → truthy (get_field "running" fs) ≡ false
      → get_field "last_report" fs ≡ object old
      → same_value (object old) null ≡ false
      → follow_index_job same_value none deadline start_deadline
          (record { dispatch = in_flight; seen = some fs; now = now } ∷ rs)
          s
        ≡ reported old
  unfolding follow_index_job or_go_on poll after_status baseline_report as_report
  follow_index_job-stale fs old now rs s idle held differs =
      reports_held
        (not (truthy (get_field "running" fs))
          && (s.observed_running || not (same_value (get_field "last_report" fs) null)))
        (get_field "last_report" fs) old _ _
        (ground (arith, idle, ap (λ v. same_value v null) held ∙ differs)) held
