-- ===== src/Gateway/Jobs/Ending.antt =====
-- Following an index job ends, and the record of the job then says how.
use repo_agent.Prelude.{
  ℕ, String, ◌≡◌, refl, ap, ◌∙◌, inl, inr, Bool, true, false, not, ◌&&◌, ◌||◌, Option, none, some,
  List, [], ◌∷◌, arith, ltb, if◌then◌else◌, Bool-cases,
}
use repo_agent.Prelude.Json.{Json, Fields}
use repo_agent.Gateway.Jobs.{
  JobStatus, running, IndexJobRecord, Registry, Dispatch, in_flight, returned, raised, Round,
  Outcome, reported, dispatch_lost, not_finished, not_started, polling, Follow, unseen,
  note_dispatch, note_status, overdue, after_status, poll, or_go_on, follow_index_job, settle,
  run_found, run_index_job, Text,
}
use repo_agent.Prelude.Dict.{lookup, lookup-insert_same}

-- A round ends after the deadline.
unfoldable pub is_late : ℕ → List Round → Bool
is_late deadline [] = false
is_late deadline (r ∷ rs) = ltb deadline r.now || is_late deadline rs

unfoldable pub is_polling : Outcome → Bool
is_polling polling = true
is_polling o = false

-- None counts as `b`.
goes_with : Bool → Option Outcome → Bool
goes_with b none = b
goes_with b (some o) = is_polling o

goes_with-if :
    (b c : Bool) (o : Outcome) (later : Option Outcome)
    → is_polling o ≡ false
    → goes_with b later ≡ false
    → goes_with b (if c then some o else later) ≡ false
unfolding goes_with
goes_with-if b true o later h k = h
goes_with-if b false o later h k = k

is_polling-or_go_on :
    (b : Bool) (o : Option Outcome) (later : Outcome)
    → goes_with b o ≡ false
    → (not b && is_polling later) ≡ false
    → is_polling (or_go_on o later) ≡ false
unfolding goes_with or_go_on
is_polling-or_go_on b none later h k = ground (arith, h, k)
is_polling-or_go_on b (some o) later h k = h

late_or :
    (late unstarted : Bool) (t : Text)
    → goes_with late
        (if late then some not_finished else (if unstarted then some (not_started t) else none))
      ≡ false
unfolding goes_with is_polling
late_or true unstarted t = refl
late_or false true t = refl
late_or false false t = refl

module _ (same_value : Json → Json → Bool) (baseline : Option Fields)
    (deadline start_deadline : ℕ) where
  goes_with-overdue :
      (now : ℕ) (s : Follow)
      → goes_with (ltb deadline now) (overdue deadline start_deadline now s) ≡ false
  unfolding overdue
  goes_with-overdue now s =
      late_or (ltb deadline now) (not s.observed_running && ltb start_deadline now) s.dispatch_error

  goes_with-after_status :
      (seen : Option Fields) (now : ℕ) (s : Follow)
      → goes_with
          (ltb deadline now)
          (after_status same_value baseline deadline start_deadline seen now s)
        ≡ false
  unfolding after_status is_polling
  goes_with-after_status none now s =
      goes_with-if _ _ _ _ refl (goes_with-overdue now (note_status none s))
  goes_with-after_status (some fs) now s =
      goes_with-if _ _ _ _ refl (goes_with-overdue now (note_status (some fs) s))

  goes_with-poll :
      (d : Dispatch) (seen : Option Fields) (now : ℕ) (s : Follow)
      → goes_with (ltb deadline now) (poll same_value baseline deadline start_deadline d seen now s)
        ≡ false
  unfolding poll goes_with is_polling
  goes_with-poll (returned v) seen now s = refl
  goes_with-poll in_flight seen now s = goes_with-after_status seen now s
  goes_with-poll (raised t) seen now s =
      goes_with-after_status seen now (note_dispatch (raised t) s)

  follow-ends :
      (rs : List Round) (s : Follow)
      → is_late deadline rs ≡ true
      → is_polling (follow_index_job same_value baseline deadline start_deadline rs s) ≡ false
  unfolding follow_index_job is_late
  follow-ends [] s h = cc
  follow-ends (r ∷ rs) s h =
      is_polling-or_go_on (ltb deadline r.now) _ _ (goes_with-poll r.dispatch r.seen r.now s)
        (elim (Bool-cases (ltb deadline r.now))
          as (λ _.
            (not (ltb deadline r.now)
              && is_polling (
                  follow_index_job same_value baseline deadline start_deadline rs
                    (note_status r.seen (note_dispatch r.dispatch s))))
            ≡ false) [
              | inl k ↦ rw (k) refl
              | inr k ↦ rw (k) (
                  follow-ends rs (note_status r.seen (note_dispatch r.dispatch s))
                    (ground (arith, h, k)))
            ])

-- Done with a report, or failed with an error.
is_consistent : JobStatus → Option Fields → Option Text → Bool
is_consistent JobStatus.done (some fs) e = true
is_consistent JobStatus.failed fs (some t) = true
is_consistent s fs e = false

-- The status of a record that is done or failed, with what belongs to it.
unfoldable pub is_settled : Option IndexJobRecord → Bool
unfolding is_consistent
is_settled none = false
is_settled (some r) = is_consistent r.status r.report r.error

is_settled-settle :
    (text_of : Outcome → Text) (o : Outcome) (r : IndexJobRecord)
    → is_polling o ≡ false
    → is_settled (some (settle text_of o r)) ≡ true
unfolding is_settled settle is_polling is_consistent
is_settled-settle text_of (reported fs) r h = refl
is_settled-settle text_of (dispatch_lost t) r h = refl
is_settled-settle text_of not_finished r h = refl
is_settled-settle text_of (not_started t) r h = refl
is_settled-settle text_of polling r h = cc

-- For a job of the registry whose record is `r`, and rounds of polling of which one ends after the
-- deadline, whatever the rounds saw: the job ends `done` with a report or `failed` with an error.
pub run_index_job-settles :
    (same_value : Json → Json → Bool) (baseline : Option Fields) (deadline start_deadline : ℕ)
    (text_of : Outcome → Text) (rs : List Round) (job_id : String) (r : IndexJobRecord)
    (jobs : Registry)
    → lookup job_id jobs ≡ some r
    → is_late deadline rs ≡ true
    → is_settled (
        lookup job_id (
          run_index_job text_of
            (follow_index_job same_value baseline deadline start_deadline rs unseen)
            job_id
            jobs))
      ≡ true
unfolding run_index_job run_found
run_index_job-settles same_value baseline deadline start_deadline text_of rs job_id r jobs found
      late =
    let o = follow_index_job same_value baseline deadline start_deadline rs unseen in
    let r' = settle text_of o (record r { status = running }) in
    ap (λ z. is_settled (lookup job_id (run_found text_of o job_id z jobs))) found
    ∙ (ap is_settled (lookup-insert_same job_id r' jobs)
        ∙ is_settled-settle text_of o (record r { status = running })
            (follow-ends same_value baseline deadline start_deadline rs unseen late))
