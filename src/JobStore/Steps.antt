-- ===== src/JobStore/Steps.antt =====
-- The transactions of the web server and of the worker, in any order: what every reachable table
-- satisfies, and what follows for the queue.
use yonwork_benchmark.JobStore.Claim.{first_where-IsBest, claim_row_best, better_same}
use yonwork_benchmark.JobStore.Create.Laws.{create_plan_ok, create_job-IsWellFormed}
use mathlib.Core.Option.{Option}
use yonwork_benchmark.JobStore.Invariant.{
  finish-IsSound, abandon-IsSound, request_cancel-IsWellFormed, IsSound, claim_row-IsWellFormed,
  update-IsWellFormed, IsWellFormed,
}
use yonwork_benchmark.JobStore.Create.{create_plan, NewPlan, create_job, Stamp, NewJob}
use yonwork_benchmark.JobStore.Queue.{
  finish, is_active, start, abandon, is_claimable, request_cancel, plan_jobs, active_job,
  claim_next_job, cancel_each, cancel_plan, set_total_runs, set_completed_runs, append_event,
  finish_job, fail_running_jobs, first_where,
}
use yonwork_benchmark.JobStore.Table.{
  update_where, is_terminal, has_id, done, is_running, Job, Level, Status, Db,
}
use mathlib.Core.Option
use yonwork_benchmark.Prelude.{
  inl, inr, arith, Bool-cases, false, refl, Bool, All, List, ℕ, String, ◌≡◌, [], ◌∷◌,
}

-- One transaction. `finish_job`, `create_job` and `create_plan` are steps where they do not raise;
-- where they do, the tables stay as they are.
pub data Step : Db → Db → Type 0 where
  create :
      (spec : NewJob) (uuid : String) (stamp : Stamp) (db db' : Db) (job : Job)
      → create_job spec uuid stamp db ≡ done (job, db')
      → Step db db'
  plan :
      (spec : NewPlan) (id : String) (uuids : ℕ → String) (stamp : Stamp) (db db' : Db)
      → create_plan spec id uuids stamp db ≡ done db'
      → Step db db'
  claim : (worker : String) (now : ℕ) (db : Db) → Step db (claim_next_job worker now db).1
  cancel_job : (id : String) (now : ℕ) (db : Db) → Step db (request_cancel id now db).1
  cancel_all : (id : String) (now : ℕ) (db : Db) → Step db (cancel_plan id now db).1
  total : (id : String) (n now : ℕ) (db : Db) → Step db (set_total_runs id n now db)
  progress : (id : String) (n now : ℕ) (db : Db) → Step db (set_completed_runs id n now db)
  log : (id : String) (level : Level) (now : ℕ) (db : Db) → Step db (append_event id level now db)
  finish_one :
      (id : String) (status : Status) (suite path : Option String) (error : String) (now : ℕ)
      (db db' : Db)
      → finish_job id status suite path error now db ≡ done db'
      → Step db db'
  recover : (reason : String) (now : ℕ) (db : Db) → Step db (fail_running_jobs reason now db).1

pub data Reach (a : Db) : Db → Type 0 where
  here : Reach a a
  next : {b c : Db} → Reach a b → Step b c → Reach a c

abbrev pub no_jobs : Db
no_jobs = record { jobs = []; events = [] }

pub claim_next_job-IsWellFormed :
    (worker : String) (now : ℕ) (db : Db)
    → IsWellFormed db
    → IsWellFormed (claim_next_job worker now db).1
unfolding claim_next_job
claim_next_job-IsWellFormed worker now db h =
    claim_row-IsWellFormed worker now db (first_where is_claimable db.jobs) h

cancel_each-IsWellFormed :
    (js : List Job) (now : ℕ) (db : Db) → IsWellFormed db → IsWellFormed (cancel_each js now db).1
unfolding cancel_each
cancel_each-IsWellFormed [] now db h = h
cancel_each-IsWellFormed (j ∷ js) now db h =
    cancel_each-IsWellFormed js now (request_cancel j.job_id now db).1
      (request_cancel-IsWellFormed j.job_id now db h)

pub cancel_plan-IsWellFormed :
    (id : String) (now : ℕ) (db : Db) → IsWellFormed db → IsWellFormed (cancel_plan id now db).1
unfolding cancel_plan
cancel_plan-IsWellFormed id now db h = cancel_each-IsWellFormed (plan_jobs id db) now db h

pub set_total_runs-IsWellFormed :
    (id : String) (n now : ℕ) (db : Db)
    → IsWellFormed db
    → IsWellFormed (set_total_runs id n now db)
unfolding set_total_runs
set_total_runs-IsWellFormed id n now db h =
    update-IsWellFormed (has_id id) (λ j. record j { total_runs = n; updated_at = now }) db
      (λ j. refl) (λ j c s. ground arith) h

pub set_completed_runs-IsWellFormed :
    (id : String) (n now : ℕ) (db : Db)
    → IsWellFormed db
    → IsWellFormed (set_completed_runs id n now db)
unfolding set_completed_runs
set_completed_runs-IsWellFormed id n now db h =
    update-IsWellFormed (has_id id) (λ j. record j { completed_runs = n; updated_at = now }) db
      (λ j. refl) (λ j c s. ground arith) h

pub append_event-IsWellFormed :
    (id : String) (level : Level) (now : ℕ) (db : Db)
    → IsWellFormed db
    → IsWellFormed (append_event id level now db)
unfolding append_event
append_event-IsWellFormed id level now db h = record { keyed = h.keyed; sound = h.sound }

pub finish_job-IsWellFormed :
    (id : String) (status : Status) (suite path : Option String) (error : String) (now : ℕ)
    (db db' : Db)
    → finish_job id status suite path error now db ≡ done db'
    → IsWellFormed db
    → IsWellFormed db'
unfolding finish_job
finish_job-IsWellFormed id status suite path error now db db' e h =
    elim (Bool-cases (is_terminal status)) [
      | inr open_status ↦ absurd (ground arith)
      | inl ends ↦
          let after =
            update-IsWellFormed (has_id id) (finish status suite path error now) db (λ j. refl)
              (λ j c s. finish-IsSound status suite path error now j ends s) h in
          let same : db' ≡ record db {
            jobs = update_where (has_id id) (finish status suite path error now) db.jobs;
          } =
            ground arith in
          rw same after
    ]

pub fail_running_jobs-IsWellFormed :
    (reason : String) (now : ℕ) (db : Db)
    → IsWellFormed db
    → IsWellFormed (fail_running_jobs reason now db).1
unfolding fail_running_jobs
fail_running_jobs-IsWellFormed reason now db h =
    update-IsWellFormed (λ j. is_running j.status) (abandon reason now) db (λ j. refl)
      (λ j c s. abandon-IsSound reason now j s) h

Step-IsWellFormed : {a b : Db} → Step a b → IsWellFormed a → IsWellFormed b
Step-IsWellFormed (create spec uuid stamp db db' job e) h =
    create_job-IsWellFormed spec uuid stamp db db' job e h
Step-IsWellFormed (plan spec id uuids stamp db db' e) h =
    (create_plan_ok spec id uuids stamp db db' e).3 h
Step-IsWellFormed (claim worker now db) h = claim_next_job-IsWellFormed worker now db h
Step-IsWellFormed (cancel_job id now db) h = request_cancel-IsWellFormed id now db h
Step-IsWellFormed (cancel_all id now db) h = cancel_plan-IsWellFormed id now db h
Step-IsWellFormed (total id n now db) h = set_total_runs-IsWellFormed id n now db h
Step-IsWellFormed (progress id n now db) h = set_completed_runs-IsWellFormed id n now db h
Step-IsWellFormed (log id level now db) h = append_event-IsWellFormed id level now db h
Step-IsWellFormed (finish_one id s u p e now db db' q) h =
    finish_job-IsWellFormed id s u p e now db db' q h
Step-IsWellFormed (recover reason now db) h = fail_running_jobs-IsWellFormed reason now db h

-- Whatever transactions the web server and the worker have run, in whatever order: job ids are
-- unique, a queued job is untouched and not asked to stop, a running one has a worker and a start
-- time, and exactly the jobs in a final status have an end time.
pub Reach-IsWellFormed : {a b : Db} → IsWellFormed a → Reach a b → IsWellFormed b
Reach-IsWellFormed h here = h
Reach-IsWellFormed h (next r s) = Step-IsWellFormed s (Reach-IsWellFormed h r)

first_where_same :
    (p q : Job → Bool) (js : List Job)
    → All (λ j. p j ≡ q j) js
    → first_where p js ≡ first_where q js
unfolding first_where
first_where_same p q [] h = refl
first_where_same p q (j ∷ js) h =
    rw (first_where_same p q js h.1) (better_same p q j (first_where q js) h.0)

active_is_claimable :
    (js : List Job)
    → All IsSound js
    → All (λ j. is_running j.status ≡ false) js
    → All (λ j. is_active j ≡ is_claimable j) js
active_is_claimable [] s h = tt
active_is_claimable (j ∷ js) s h =
    (ground (arith, s.0.queued_untouched), active_is_claimable js s.1 h.1)

-- While no job runs, the job that the top bar shows is the one that the next claim takes.
pub active_job_claimed :
    (worker : String) (now : ℕ) (db : Db)
    → IsWellFormed db
    → All (λ j. is_running j.status ≡ false) db.jobs
    → (claim_next_job worker now db).0 ≡ Option.map (start worker now) (active_job db)
unfolding claim_next_job active_job
active_job_claimed worker now db h idle =
    rw (first_where_same is_active is_claimable db.jobs (active_is_claimable db.jobs h.sound idle))
      (claim_row_best worker now db (first_where is_claimable db.jobs) h.keyed
        (first_where-IsBest is_claimable db.jobs))
