-- ===== src/Tests/JobStore.antt =====
-- A plan of two modes: submitted, claimed, cancelled.
use yonwork_benchmark.JobStore.Queue.{active_job, start, claim_next_job, request_cancel}
use yonwork_benchmark.JobStore.Create.Laws.{create_plan_ok, PlanRows, AreDistinct}
use yonwork_benchmark.JobStore.Steps.{
  Step, active_job_claimed, here, next, Reach-IsWellFormed, no_jobs, Reach,
}
use yonwork_benchmark.JobStore.Invariant.{IsWellFormed}
use yonwork_benchmark.JobStore.Table.{JobError, done, refused, Db, Job, Attempt}
use yonwork_benchmark.JobStore.Create.{PlanMode, NewPlan, Stamp, create_plan}
use mathlib.Core.Option.{Option}
use yonwork_benchmark.JobStore.Rows.{Persists, Reach-Persists}
use mathlib.Core.Option
use yonwork_benchmark.Prelude.{
  ◌++◌, List, pos, strip, ◌≢◌, zero, ℕ, String, [], ◌∷◌, true, false, refl, ◌≡◌,
}

abbrev mode : String → PlanMode
mode query = record { product = "yonwork"; model_query = query; label = "" }

abbrev spec : NewPlan
spec = record {
  experiment_name = " trial ";
  case_set_id = "smoke";
  modes = mode "a" ∷ mode "b" ∷ [];
  case_catalog_path = "cases/catalog.yaml";
  agent_id = "main";
  timeout_seconds = pos 600000;
  limit_runs = pos 0;
  collect_usage = true;
  export_xlsx = true;
  allow_tools = false;
}

abbrev uuids : ℕ → String
uuids zero = "00000001"
uuids n = "00000002"

abbrev at_noon : Stamp
at_noon = record { time = 12; text = "noon" }

abbrev submitted : Attempt Db
submitted = create_plan spec "plan" uuids at_noon no_jobs

abbrev db_of : Attempt Db → Db
db_of (done db) = db
db_of (refused e) = no_jobs

accepted : submitted ≡ done (db_of submitted)
unfolding create_plan strip
accepted = refl

duplicate_refused :
    create_plan (record spec { modes = mode "a" ∷ mode " a " ∷ [] }) "plan" uuids at_noon no_jobs
    ≡ refused JobError.duplicate_mode
unfolding create_plan strip
duplicate_refused = refl

empty-IsWellFormed : IsWellFormed no_jobs
empty-IsWellFormed = record { keyed = tt; sound = tt }

create_plan_ok_example :
    (spec.modes ≢ [])
    × AreDistinct spec.modes
    × ((rows : List Job) × ((db_of submitted).jobs ≡ no_jobs.jobs ++ rows)
        × PlanRows "plan" 12 0 spec.modes rows)
    × (IsWellFormed no_jobs → IsWellFormed (db_of submitted))
create_plan_ok_example = create_plan_ok spec "plan" uuids at_noon no_jobs (db_of submitted) accepted

abbrev history :
    Reach no_jobs (request_cancel "00000002" 14 (claim_next_job "w" 13 (db_of submitted)).1).1
history =
    next
      (next (next here (Step.plan spec "plan" uuids at_noon no_jobs (db_of submitted) accepted))
        (Step.claim "w" 13 (db_of submitted)))
      (Step.cancel_job "00000002" 14 (claim_next_job "w" 13 (db_of submitted)).1)

abbrev later_history :
    Reach
      (db_of submitted)
      (request_cancel "00000002" 14 (claim_next_job "w" 13 (db_of submitted)).1).1
later_history =
    next (next here (Step.claim "w" 13 (db_of submitted)))
      (Step.cancel_job "00000002" 14 (claim_next_job "w" 13 (db_of submitted)).1)

Reach-IsWellFormed_example :
    IsWellFormed (request_cancel "00000002" 14 (claim_next_job "w" 13 (db_of submitted)).1).1
Reach-IsWellFormed_example = Reach-IsWellFormed empty-IsWellFormed history

well_formed : IsWellFormed (db_of submitted)
well_formed = create_plan_ok_example.3 empty-IsWellFormed

active_job_claimed_example :
    (claim_next_job "w" 13 (db_of submitted)).0
    ≡ Option.map (start "w" 13) (active_job (db_of submitted))
unfolding create_plan strip
active_job_claimed_example =
    active_job_claimed "w" 13 (db_of submitted) well_formed (refl, (refl, tt))

Reach-Persists_example :
    Persists
      (db_of submitted).jobs
      (request_cancel "00000002" 14 (claim_next_job "w" 13 (db_of submitted)).1).1.jobs
Reach-Persists_example = Reach-Persists later_history
