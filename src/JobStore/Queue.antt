-- ===== src/JobStore/Queue.antt =====
-- Claiming, cancelling and finishing jobs, and the queries, of runner/job_store.py.
use mathlib.Core.List.{reverse}
use yonwork_benchmark.JobStore.Table.{
  done, JobError, refused, is_terminal, is_queued, Attempt, is_running, count_where, has_id, Event,
  Job, update_where, Level, Db, find_job, Status,
}
use Prim.Native.Nat.{suc, Ordering, compare as compare_ℕ, min, max}
use yonwork_benchmark.Prelude.{
  text_le, not, ◌==◌, ◌||◌, ltb, str_eq, false, none, [], if◌then◌else◌, ◌&&◌, negsuc, leb, Bool,
  some, ◌++◌, true, Option, keep, ◌∷◌, pos, take, sort_by, List, ℤ, ℕ, String,
}

-- `ORDER BY created_at, plan_position, job_id`
unfoldable pub is_before : Job → Job → Bool
is_before a b =
    if ltb a.created_at b.created_at
    then true
    else if ltb b.created_at a.created_at
    then false
    else if ltb a.plan_position b.plan_position
    then true
    else if ltb b.plan_position a.plan_position
    then false
    else text_le a.job_id b.job_id

-- The earlier of a row that satisfies `p` and the best of the rows after it.
unfoldable pub better : (Job → Bool) → Job → Option Job → Option Job
better p j none = if p j then some j else none
better p j (some b) = if p j then (if is_before j b then some j else some b) else some b

-- The first row, in that order, among those that satisfy `p`.
unfoldable pub first_where : (Job → Bool) → List Job → Option Job
unfolding better
first_where p [] = none
first_where p (j ∷ js) = better p j (first_where p js)

abbrev pub is_claimable : Job → Bool
is_claimable j = is_queued j.status && not j.cancel_requested

abbrev pub start : String → ℕ → Job → Job
start worker now j = record j {
  status = Status.running;
  worker_id = some worker;
  started_at = some now;
  updated_at = now;
}

abbrev pub is_chosen : Job → Job → Bool
is_chosen job j = has_id job.job_id j && is_queued j.status

-- The update of the selected row; its `rowcount` is tested as the code does.
unfoldable pub claim_row : String → ℕ → Db → Option Job → Option Job × Db
unfolding update_where count_where
claim_row worker now db none = (none, db)
claim_row worker now db (some job) =
    let db' = record db { jobs = update_where (is_chosen job) (start worker now) db.jobs } in
    if count_where (is_chosen job) db.jobs == 1
    then (some (start worker now job), db')
    else (none, db')

unfoldable pub claim_next_job : String → ℕ → Db → Option Job × Db
unfolding first_where claim_row
claim_next_job worker now db = claim_row worker now db (first_where is_claimable db.jobs)

unfoldable pub append_event : String → Level → ℕ → Db → Db
append_event id level now db = record db {
  events = db.events ++ record { job_id = id; level = level; created_at = now } ∷ [];
}

abbrev pub is_active : Job → Bool
is_active j = is_queued j.status || is_running j.status

-- The assignments run from left to right in MySQL: `finished_at` reads the old status.
abbrev pub cancel : ℕ → Job → Job
cancel now j = record j {
  cancel_requested = true;
  finished_at = if is_queued j.status then some now else j.finished_at;
  status = if is_queued j.status then Status.cancelled else j.status;
  updated_at = now;
}

-- The affected rows are those with a new value: a second request within the millisecond has none.
abbrev pub has_changed : ℕ → Job → Bool
has_changed now j = is_queued j.status || (not j.cancel_requested || not (j.updated_at == now))

unfoldable pub request_cancel : String → ℕ → Db → Bool × Db
unfolding update_where count_where append_event
request_cancel id now db =
    let chosen = λ (j : Job). has_id id j && is_active j in
    let db' = record db { jobs = update_where chosen (cancel now) db.jobs } in
    let changed = λ (j : Job). chosen j && has_changed now j in
    if ltb 0 (count_where changed db.jobs)
    then (true, append_event id Level.warning now db')
    else (false, db')

unfoldable pub set_total_runs : String → ℕ → ℕ → Db → Db
unfolding update_where
set_total_runs id total now db = record db {
  jobs = update_where (has_id id) (λ j. record j { total_runs = total; updated_at = now }) db.jobs;
}

unfoldable pub set_completed_runs : String → ℕ → ℕ → Db → Db
unfolding update_where
set_completed_runs id completed now db = record db {
  jobs =
      update_where (has_id id) (λ j. record j { completed_runs = completed; updated_at = now })
        db.jobs;
}

-- The job that the top bar shows.
unfoldable pub active_job : Db → Option Job
unfolding first_where
active_job db = first_where is_active db.jobs

unfoldable pub is_cancel_requested : String → Db → Bool
unfolding find_job
is_cancel_requested id db = elim (find_job id db.jobs) [
  | none ↦ false
  | some j ↦ j.cancel_requested
]

abbrev pub finish : Status → Option String → Option String → String → ℕ → Job → Job
finish status suite_id results_path error now j = record j {
  status = status;
  suite_id = suite_id;
  results_path = results_path;
  error = some error;
  finished_at = some now;
  updated_at = now;
}

unfoldable pub finish_job :
    String → Status → Option String → Option String → String → ℕ → Db → Attempt Db
unfolding update_where
finish_job id status suite_id results_path error now db =
    if not (is_terminal status)
    then refused JobError.bad_status
    else done (record db {
      jobs = update_where (has_id id) (finish status suite_id results_path error now) db.jobs;
    })

abbrev pub abandon : String → ℕ → Job → Job
abandon reason now j = record j {
  status = Status.failed;
  error = some reason;
  finished_at = some now;
  updated_at = now;
}

unfoldable pub fail_running_jobs : String → ℕ → Db → ℕ × Db
unfolding update_where count_where
fail_running_jobs reason now db = (
  count_where (λ j. is_running j.status) db.jobs,
  record db { jobs = update_where (λ j. is_running j.status) (abandon reason now) db.jobs },
)

-- `ORDER BY plan_position, created_at`
plan_before : Job → Job → Bool
plan_before a b = elim (compare_ℕ a.plan_position b.plan_position) [
  | Ordering.lt ↦ true
  | Ordering.gt ↦ false
  | Ordering.eq ↦ leb a.created_at b.created_at
]

in_plan : String → Job → Bool
in_plan plan j = elim j.plan_id [ none ↦ false | some p ↦ str_eq p plan ]

unfoldable pub plan_jobs : String → Db → List Job
unfolding plan_before in_plan sort_by
plan_jobs plan db = sort_by plan_before (keep (in_plan plan) db.jobs)

unfoldable pub cancel_each : List Job → ℕ → Db → ℕ × Db
unfolding request_cancel
cancel_each [] now db = (0, db)
cancel_each (j ∷ js) now db =
    let (changed, db') = request_cancel j.job_id now db in
    let (n, db'') = cancel_each js now db' in (if changed then suc n else n, db'')

-- `sum(1 for job in jobs if request_cancel(job_id))`
unfoldable pub cancel_plan : String → ℕ → Db → ℕ × Db
unfolding plan_jobs cancel_each
cancel_plan plan now db = cancel_each (plan_jobs plan db) now db

-- `max(1, min(limit, most))`
abbrev pub clamp_limit : ℤ → ℕ → ℕ
clamp_limit (pos n) most = max 1 (min n most)
clamp_limit (negsuc n) most = 1

unfoldable pub list_jobs : ℤ → Db → List Job
unfolding sort_by
list_jobs limit db =
    take (clamp_limit limit 500) (sort_by (λ a b. leb b.created_at a.created_at) db.jobs)

-- The latest events of a job, oldest first.
unfoldable pub list_events : String → ℤ → Db → List Event
list_events id limit db =
    reverse (take (clamp_limit limit 1000) (reverse (keep (λ e. str_eq e.job_id id) db.events)))
