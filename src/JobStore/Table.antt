-- ===== src/JobStore/Table.antt =====
-- The tables of runner/job_store.py, its job status values, and its errors.
use yonwork_benchmark.Prelude.{
  suc, some, [], false, if◌then◌else◌, true, ℤ, ◌∷◌, none, str_eq, Bool, Option, List, ℕ, String,
}

pub data Status : Type 0 where
  queued running completed failed cancelled : Status

abbrev pub is_queued : Status → Bool
is_queued Status.queued = true
is_queued _ = false

abbrev pub is_running : Status → Bool
is_running Status.running = true
is_running _ = false

-- `TERMINAL_STATUSES`
abbrev pub is_terminal : Status → Bool
is_terminal Status.completed = true
is_terminal Status.failed = true
is_terminal Status.cancelled = true
is_terminal _ = false

-- A row of `benchmark_jobs`. Times are milliseconds; a time-out is in milliseconds too.
pub record Job : Type 0 where
  pub job_id : String
  pub plan_id : Option String
  pub plan_position : ℕ
  pub plan_label : String
  pub batch_id : String
  pub experiment_name : String
  pub case_catalog_path : String
  pub case_set_id : String
  pub product : String
  pub model_query : String
  pub agent_id : String
  pub timeout_seconds : ℤ
  pub limit_runs : ℤ
  pub collect_usage : Bool
  pub export_xlsx : Bool
  pub allow_tools : Bool
  pub status : Status
  pub total_runs : ℕ
  pub completed_runs : ℕ
  pub suite_id : Option String
  pub results_path : Option String
  pub worker_id : Option String
  pub cancel_requested : Bool
  pub error : Option String
  pub created_at : ℕ
  pub started_at : Option ℕ
  pub finished_at : Option ℕ
  pub updated_at : ℕ

pub data Level : Type 0 where
  info warning error_level : Level

-- A row of `benchmark_job_events`; the list is in the order of its `id`.
pub record Event : Type 0 where
  pub job_id : String
  pub level : Level
  pub created_at : ℕ

pub record Db : Type 0 where
  pub jobs : List Job
  pub events : List Event

pub data JobError : Type 0 where
  empty_name bad_timeout bad_limit no_modes duplicate_mode database_error unreadable bad_status :
      JobError

pub data Attempt {ℓ} (Value : Type ℓ) : Type ℓ where
  done : Value → Attempt Value
  refused : JobError → Attempt Value

-- An exception skips what follows.
infixl 5 ◌>>=◌
abbrev pub ◌>>=◌ {ℓ κ} :
    {Value : Type ℓ} {Next : Type κ} → Attempt Value → (Value → Attempt Next) → Attempt Next
refused e >>= next = refused e
done v >>= next = next v

-- `UPDATE … WHERE p`, and the number of rows that it matches.
unfoldable pub update_where : (Job → Bool) → (Job → Job) → List Job → List Job
update_where p f [] = []
update_where p f (j ∷ js) = (if p j then f j else j) ∷ update_where p f js

unfoldable pub count_where : (Job → Bool) → List Job → ℕ
count_where p [] = 0
count_where p (j ∷ js) = let rest = count_where p js in if p j then suc rest else rest

unfoldable pub find_job : String → List Job → Option Job
find_job id [] = none
find_job id (j ∷ js) = let rest = find_job id js in if str_eq j.job_id id then some j else rest

abbrev pub has_id : String → Job → Bool
has_id id j = str_eq j.job_id id
