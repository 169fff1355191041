-- ===== src/Gateway/Jobs/Examples.antt =====
-- A job whose dispatch times out while the indexer runs, and one that meets an old report.
use repo_agent.Prelude.{◌≡◌, refl, Bool, true, false, none, some, List, [], ◌∷◌}
use repo_agent.Prelude.Dict.{lookup}
use repo_agent.Prelude.Json.{Json, bool, str, object, Fields, end, field, truthy, get_field}
use repo_agent.Prelude.Text.{codes}
use repo_agent.Prelude.Words.{Text}
use repo_agent.Gateway.Jobs.{
  pending, incremental, IndexJobRecord, Registry, in_flight, raised, Round, Outcome, reported,
  unseen, follow_index_job, run_index_job,
}
use repo_agent.Gateway.Jobs.Ending.{is_late, is_settled, run_index_job-settles}
use repo_agent.Gateway.Jobs.Trouble.{
  is_silent, no_two_silent, is_lost, follow_index_job-not_lost, follow_index_job-stale,
}

-- Nothing compares equal.
abbrev differ : Json → Json → Bool
differ v w = false

abbrev fresh : IndexJobRecord
fresh = record {
  job_id = "j";
  mode = incremental;
  correlation_id = "c";
  status = pending;
  report = none;
  error = none;
}

abbrev registry : Registry
registry = ("j", fresh) ∷ []

abbrev old_report : Fields
old_report = field "files" (str (codes "3")) end

abbrev idle : Fields
idle = field "running" (bool false) (field "last_report" (object old_report) end)

abbrev busy : Fields
busy = field "running" (bool true) end

abbrev rounds : List Round
rounds =
    record { dispatch = in_flight; seen = some busy; now = 1 }
    ∷ record { dispatch = raised (codes "timeout"); seen = none; now = 2 }
    ∷ record { dispatch = raised (codes "timeout"); seen = some idle; now = 30 }
    ∷ []

error_text : Outcome → Text
error_text o = codes "error"

run_index_job-settles_example :
    is_settled (
      lookup "j" (
        run_index_job error_text
          (follow_index_job differ (some end) 20 5 rounds unseen)
          "j"
          registry))
    ≡ true
unfolding lookup is_late
run_index_job-settles_example =
    run_index_job-settles differ (some end) 20 5 error_text rounds "j" fresh registry refl refl

follow_index_job-not_lost_example :
    is_lost (follow_index_job differ (some end) 20 5 rounds unseen) ≡ false
unfolding no_two_silent is_silent
follow_index_job-not_lost_example =
    follow_index_job-not_lost differ (some end) 20 5 false rounds unseen refl refl

follow_index_job-stale_example :
    follow_index_job differ none 20 5
      (record { dispatch = in_flight; seen = some idle; now = 1 } ∷ [])
      unseen
    ≡ reported old_report
unfolding truthy get_field
follow_index_job-stale_example =
    follow_index_job-stale differ 20 5 idle old_report 1 [] unseen refl refl refl
