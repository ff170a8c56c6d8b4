-- ===== src/JobStore/Create.antt =====
-- `_validate`, `_insert_job`, `create_job` and `create_plan` of runner/job_store.py.
pub mod Laws
use yonwork_benchmark.JobStore.Table.{
  find_job, Level, Status, ◌>>=◌, JobError, refused, done, Attempt, Job, Db,
}
use yonwork_benchmark.Prelude.{
  is_negative, none, suc, is_empty, is_positive, ◌++◌, [], strip, ◌||◌, any, some, ◌&&◌, is_blank,
  concat, ◌∷◌, str_eq, not, take_chars, false, Bool, if◌then◌else◌, ℤ, List, Option, ℕ, String,
}

pub record PlanMode : Type 0 where
  pub product : String
  pub model_query : String
  pub label : String

abbrev pub same_key : PlanMode → PlanMode → Bool
same_key a b = str_eq a.product b.product && str_eq (strip a.model_query) (strip b.model_query)

-- `label or f"{product} / {model_query.strip() or '默认模型'}"`
title : PlanMode → String
unfolding concat strip
title m =
    if not (is_blank m.label)
    then m.label
    else concat m.product
        (concat " / " (if is_blank (strip m.model_query) then "默认模型" else strip m.model_query))

pub record NewJob : Type 0 where
  pub experiment_name : String
  pub case_set_id : String
  pub case_catalog_path : String
  pub product : String
  pub model_query : String
  pub agent_id : String
  pub timeout_seconds : ℤ
  pub limit_runs : ℤ
  pub collect_usage : Bool
  pub export_xlsx : Bool
  pub allow_tools : Bool

pub record NewPlan : Type 0 where
  pub experiment_name : String
  pub case_set_id : String
  pub modes : List PlanMode
  pub case_catalog_path : String
  pub agent_id : String
  pub timeout_seconds : ℤ
  pub limit_runs : ℤ
  pub collect_usage : Bool
  pub export_xlsx : Bool
  pub allow_tools : Bool

validate : String → ℤ → ℤ → Attempt String
validate name timeout_seconds limit_runs =
    if is_blank (strip name)
    then refused JobError.empty_name
    else if not (is_positive timeout_seconds)
    then refused JobError.bad_timeout
    else if is_negative limit_runs
    then refused JobError.bad_limit
    else done (strip name)

-- The time of a submission, and its text `%Y%m%d-%H%M%S`.
pub record Stamp : Type 0 where
  pub time : ℕ
  pub text : String

new_row : NewJob → String → Stamp → Option String → ℕ → String → String → Job
unfolding concat take_chars strip
new_row spec name stamp plan_id position label job_id = record {
  job_id = job_id;
  plan_id = plan_id;
  plan_position = position;
  plan_label = take_chars 128 label;
  batch_id = concat "web-" (concat stamp.text (concat "-" (take_chars 8 job_id)));
  experiment_name = name;
  case_catalog_path = spec.case_catalog_path;
  case_set_id = spec.case_set_id;
  product = spec.product;
  model_query = strip spec.model_query;
  agent_id = spec.agent_id;
  timeout_seconds = spec.timeout_seconds;
  limit_runs = spec.limit_runs;
  collect_usage = spec.collect_usage;
  export_xlsx = spec.export_xlsx;
  allow_tools = spec.allow_tools;
  status = Status.queued;
  total_runs = 0;
  completed_runs = 0;
  suite_id = none;
  results_path = none;
  worker_id = none;
  cancel_requested = false;
  error = none;
  created_at = stamp.time;
  started_at = none;
  finished_at = none;
  updated_at = stamp.time;
}

-- The primary key and the unique key on `batch_id`: an insert that repeats one is refused.
clashes : Job → List Job → Bool
clashes row [] = false
clashes row (j ∷ js) =
    (str_eq j.job_id row.job_id || str_eq j.batch_id row.batch_id) || clashes row js

insert_job : NewJob → String → Stamp → Option String → ℕ → String → String → Db → Attempt Db
unfolding new_row clashes
insert_job spec name stamp plan_id position label job_id db =
    let row = new_row spec name stamp plan_id position label job_id in
    if clashes row db.jobs
    then refused JobError.database_error
    else done (record {
      jobs = db.jobs ++ row ∷ [];
      events =
          db.events ++ record { job_id = job_id; level = Level.info; created_at = stamp.time } ∷ [];
    })

-- `uuid` is the fresh `uuid4().hex`.
unfoldable pub create_job : NewJob → String → Stamp → Db → Attempt (Job × Db)
unfolding validate insert_job
create_job spec uuid stamp db = do
  name ← validate spec.experiment_name spec.timeout_seconds spec.limit_runs
  db' ← insert_job spec name stamp none 0 "" uuid db
  elim (find_job uuid db'.jobs) [ none ↦ refused JobError.unreadable | some job ↦ done (job, db') ]

-- The loop over `spec.modes` with the set of the keys seen, as the list of the modes that have them.
check_modes : List PlanMode → List PlanMode → Attempt (Unit {0})
check_modes seen [] = done tt
check_modes seen (m ∷ ms) =
    let rest = check_modes (m ∷ seen) ms in
    if any (same_key m) seen then refused JobError.duplicate_mode else rest

mode_job : NewPlan → String → PlanMode → NewJob
mode_job spec name m = record {
  experiment_name = name;
  case_set_id = spec.case_set_id;
  case_catalog_path = spec.case_catalog_path;
  product = m.product;
  model_query = m.model_query;
  agent_id = spec.agent_id;
  timeout_seconds = spec.timeout_seconds;
  limit_runs = spec.limit_runs;
  collect_usage = spec.collect_usage;
  export_xlsx = spec.export_xlsx;
  allow_tools = spec.allow_tools;
}

-- `uuids` gives the job id of each position.
insert_modes :
    NewPlan → String → Stamp → String → (ℕ → String) → ℕ → List PlanMode → Db → Attempt Db
unfolding mode_job insert_job title
insert_modes spec name stamp plan_id uuids position [] db = done db
insert_modes spec name stamp plan_id uuids position (m ∷ ms) db =
    insert_job (mode_job spec name m) name stamp (some plan_id) position (title m) (uuids position)
      db
    >>= insert_modes spec name stamp plan_id uuids (suc position) ms

unfoldable pub create_plan : NewPlan → String → (ℕ → String) → Stamp → Db → Attempt Db
unfolding validate check_modes insert_modes
create_plan spec plan_id uuids stamp db = do
  name ← validate spec.experiment_name spec.timeout_seconds spec.limit_runs
  checked ← (if is_empty spec.modes then refused JobError.no_modes else check_modes [] spec.modes)
  insert_modes spec name stamp plan_id uuids 0 spec.modes db
