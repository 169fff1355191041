-- ===== src/Gateway/Jobs.antt =====
-- gateway/app.py, _run_index_job and _follow_index_job, and core/src/core/gateway.py, IndexJobRecord
-- and IndexJobRegistry. What a round of polling sees is an argument: the state of the dispatch, the
-- answer of get_index_status and the time behind it. So is Python's comparison of two values.
pub mod Ending
pub mod Trouble
mod Examples
use repo_agent.Prelude.{
  ℕ, ◌+◌, String, Bool, false, not, ◌&&◌, ◌||◌, Option, none, some, List, [], ◌∷◌, ltb, leb,
  if◌then◌else◌,
}
use repo_agent.Prelude.Dict.{Dict, lookup, insert}
use repo_agent.Prelude.Json.{Json, null, object, Fields, end, field, truthy, get_field}
use repo_agent.Prelude.Words.{Text, is_text}

pub data JobStatus : Type 0 where
  pending : JobStatus
  running : JobStatus
  done : JobStatus
  failed : JobStatus

pub data IndexMode : Type 0 where
  full : IndexMode
  incremental : IndexMode

pub record IndexJobRecord : Type 0 where
  pub job_id : String
  pub mode : IndexMode
  pub correlation_id : String
  pub status : JobStatus
  pub report : Option Fields
  pub error : Option Text

abbrev pub Registry : Type 0
Registry = Dict IndexJobRecord

-- IndexJobRegistry.create; `job_id` is the new uuid.
unfoldable pub create : String → IndexMode → String → Registry → IndexJobRecord × Registry
unfolding insert
create job_id mode correlation_id jobs =
    let r : IndexJobRecord = record {
      job_id = job_id;
      mode = mode;
      correlation_id = correlation_id;
      status = pending;
      report = none;
      error = none;
    } in
    (r, insert job_id r jobs)

-- The dispatch is still running, has returned a value, or has raised an error with a text.
pub data Dispatch : Type 0 where
  in_flight : Dispatch
  returned : Json → Dispatch
  raised : Text → Dispatch

-- What one round sees; the status is None when the indexer cannot be reached.
pub record Round : Type 0 where
  pub dispatch : Dispatch
  pub seen : Option Fields
  pub now : ℕ

-- How the following ends: with a report, with the error of the dispatch, with one of the two
-- TimeoutErrors, or not within the rounds given.
pub data Outcome : Type 0 where
  reported : Fields → Outcome
  dispatch_lost : Text → Outcome
  not_finished : Outcome
  not_started : Text → Outcome
  polling : Outcome

-- The variables of the loop; an empty text is an error that is None or empty.
pub record Follow : Type 0 where
  pub dispatch_error : Text
  pub observed_running : Bool
  pub unreachable : ℕ

abbrev pub unseen : Follow
unseen = record { dispatch_error = []; observed_running = false; unreachable = 0 }

unfoldable pub as_report : Json → Fields
as_report (object fs) = fs
as_report v = field "result" v end

-- dispatch_error or str(error)
unfoldable pub first_error : Text → Text → Text
first_error [] t = t
first_error (c ∷ s) t = c ∷ s

unfoldable pub note_dispatch : Dispatch → Follow → Follow
unfolding first_error
note_dispatch (raised t) s = record s { dispatch_error = first_error s.dispatch_error t }
note_dispatch d s = s

unfoldable pub note_status : Option Fields → Follow → Follow
unfolding truthy get_field
note_status none s = record s { unreachable = s.unreachable + 1 }
note_status (some fs) s = record s {
  observed_running = s.observed_running || truthy (get_field "running" fs);
  unreachable = 0;
}

abbrev pub unreachable_poll_limit : ℕ
unreachable_poll_limit = 2

-- The two deadlines.
unfoldable pub overdue : ℕ → ℕ → ℕ → Follow → Option Outcome
overdue deadline start_deadline now s =
    if ltb deadline now
    then some not_finished
    else if not s.observed_running && ltb start_deadline now
    then some (not_started s.dispatch_error)
    else none

unfoldable pub or_go_on : Option Outcome → Outcome → Outcome
or_go_on none later = later
or_go_on (some o) later = o

module _ (same_value : Json → Json → Bool) (baseline : Option Fields)
    (deadline start_deadline : ℕ) where
  -- (baseline or {}).get("last_report")
  unfoldable pub baseline_report : Json
  unfolding get_field
  baseline_report = elim baseline [ none ↦ null | some fs ↦ get_field "last_report" fs ]

  -- What the status of a round decides; `s` has noted the dispatch and not yet the status.
  unfoldable pub after_status : Option Fields → ℕ → Follow → Option Outcome
  unfolding note_status is_text as_report truthy get_field baseline_report overdue
  after_status none now s =
      if is_text s.dispatch_error && leb unreachable_poll_limit (s.unreachable + 1)
      then some (dispatch_lost s.dispatch_error)
      else overdue deadline start_deadline now (note_status none s)
  after_status (some fs) now s =
      if not (truthy (get_field "running" fs))
        && (s.observed_running || not (same_value (get_field "last_report" fs) baseline_report))
      then some (reported (as_report (get_field "last_report" fs)))
      else overdue deadline start_deadline now (note_status (some fs) s)

  -- One round, up to the sleep: None to go on.
  unfoldable pub poll : Dispatch → Option Fields → ℕ → Follow → Option Outcome
  unfolding after_status as_report note_dispatch
  poll (returned v) seen now s = some (reported (as_report v))
  poll in_flight seen now s = after_status seen now s
  poll (raised t) seen now s = after_status seen now (note_dispatch (raised t) s)

  -- _follow_index_job
  unfoldable pub follow_index_job : List Round → Follow → Outcome
  unfolding poll or_go_on note_dispatch note_status
  follow_index_job [] s = polling
  follow_index_job (r ∷ rs) s =
      or_go_on (poll r.dispatch r.seen r.now s)
        (follow_index_job rs (note_status r.seen (note_dispatch r.dispatch s)))

-- `text_of` is str() of an error.
unfoldable pub settle : (Outcome → Text) → Outcome → IndexJobRecord → IndexJobRecord
settle text_of (reported fs) r = record r { report = some fs; status = done }
settle text_of polling r = r
settle text_of o r = record r { status = failed; error = some (text_of o) }

run_found : (Outcome → Text) → Outcome → String → Option IndexJobRecord → Registry → Registry
unfolding settle insert
run_found text_of o job_id none jobs = jobs
run_found text_of o job_id (some r) jobs =
    insert job_id (settle text_of o (record r { status = running })) jobs

-- _run_index_job, with the outcome of the following. The record is an object of the registry.
unfoldable pub run_index_job : (Outcome → Text) → Outcome → String → Registry → Registry
unfolding run_found lookup
run_index_job text_of o job_id jobs = run_found text_of o job_id (lookup job_id jobs) jobs
