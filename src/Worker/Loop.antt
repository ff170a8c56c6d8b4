-- ===== src/Worker/Loop.antt =====
-- `run_worker` of runner/worker.py: the lock, the recovery of jobs that a dead worker left, and the
-- loop that claims and executes. A worker runs until a signal comes, so the loop has a number of
-- turns, and what is proved holds for every number.
use yonwork_benchmark.JobStore.Running.{claim_next_only, IsIdle, claim_next_none, abandoned}
use Prim.Native.Char.{Char}
use yonwork_benchmark.Prelude.{
  Option, some, none, ℕ, zero, suc, String, Bool, Bool-cases, true, false, if◌then◌else◌, inl, inr,
  ◌≡◌, refl, All,
}
use yonwork_benchmark.JobStore.Later.{idle-IsLaterTable}
use yonwork_benchmark.JobStore.Table.{Db, Job, is_running, find_job}
use yonwork_benchmark.JobStore.Invariant.{IsWellFormed}
use yonwork_benchmark.JobStore.Steps.{claim_next_job-IsWellFormed, fail_running_jobs-IsWellFormed}
use yonwork_benchmark.JobStore.Queue.{claim_next_job, fail_running_jobs}
use yonwork_benchmark.Assertions.Content.{JsonReader}
use yonwork_benchmark.Worker.World.{World, Site, settle}
use yonwork_benchmark.Worker.Execute.{execute_job}
use yonwork_benchmark.Worker.Execute.Evolve.{settle-IsLaterWorld}
use yonwork_benchmark.Worker.Execute.Ends.{execute_job_ends}

module _ {E : Type 0} (site : Site E) (fold : Char → String) (reader : JsonReader)
    (results_root : String) (worker_id : String) (once : Bool) where
  -- The end of a turn: with `--once` the worker returns.
  turn_over : (World E → World E) → World E → World E
  turn_over rest w = if once then w else rest w

  -- A turn after its claim: the job is executed, or the worker sleeps.
  take_turn : (World E → World E) → Option Job × Db → World E → World E
  unfolding turn_over execute_job settle
  take_turn rest (some job, db) w =
      turn_over rest (execute_job site fold reader results_root job (record w { db = db }))
  take_turn rest (none, db) w =
      turn_over (λ v. rest (settle site (site.sleep v.env) v)) (record w { db = db })

  work : ℕ → World E → World E
  unfolding take_turn claim_next_job
  work zero w = w
  work (suc turns) w =
      let rest = work turns in
      if w.stopping then w else take_turn rest (claim_next_job worker_id (site.now w.env) w.db) w

  -- `false`: another worker has the lock, and `WorkerAlreadyRunning` is raised.
  unfoldable pub run_worker : ℕ → World E → Bool × World E
  unfolding work fail_running_jobs
  run_worker turns w =
      let (acquired, e) = site.lock w.env in
      if acquired
      then (
        true,
        work turns (record w {
          env = e;
          db = (fail_running_jobs "worker restarted" (site.now e) w.db).1;
          stopping = false;
        }),
      )
      else (false, record w { env = e })

-- A well-formed table in which no job runs.
record IsQuiet (db : Db) : Type 0 where
  idle : IsIdle db
  well : IsWellFormed db

module _ {E : Type 0} (site : Site E) (fold : Char → String) (reader : JsonReader)
    (results_root : String) (worker_id : String) (once : Bool) where
  turn_over-IsQuiet :
      (rest : World E → World E)
      → ((v : World E) → IsQuiet v.db → IsQuiet (rest v).db)
      → (w : World E) → IsQuiet w.db
      → IsQuiet (turn_over site fold reader results_root worker_id once rest w).db
  unfolding turn_over
  turn_over-IsQuiet rest keeps w h = elim (Bool-cases once) [
    | inl e ↦ rw e h
    | inr e ↦ rw e (keeps w h)
  ]

  sleep-IsQuiet : (v : World E) → IsQuiet v.db → IsQuiet (settle site (site.sleep v.env) v).db
  sleep-IsQuiet v h =
      let l = settle-IsLaterWorld site (site.sleep v.env) v in
      record { idle = idle-IsLaterTable v.db.jobs _ h.idle l.jobs; well = l.well h.well }

  take_turn-IsQuiet :
      (rest : World E → World E)
      → ((v : World E) → IsQuiet v.db → IsQuiet (rest v).db)
      → (r : Option Job × Db) (w : World E) → IsWellFormed r.1
      → (r.0 ≡ none → IsIdle r.1)
      → ((job : Job)
          → r.0 ≡ some job
          → All (λ j. is_running j.status ≡ true → j.job_id ≡ job.job_id) r.1.jobs
            × ((k : Job) × (find_job job.job_id r.1.jobs ≡ some k)))
      → IsQuiet (take_turn site fold reader results_root worker_id once rest r w).db
  unfolding take_turn
  take_turn-IsQuiet rest keeps (none, db) w well idle runs =
      turn_over-IsQuiet (λ v. rest (settle site (site.sleep v.env) v))
        (λ v h. keeps _ (sleep-IsQuiet v h)) (record w { db = db })
        (record { idle = idle refl; well = well })
  take_turn-IsQuiet rest keeps (some job, db) w well idle runs =
      let (only, (k, found)) = runs job refl in
      let (ends, quiet, keeps_well) =
        execute_job_ends site fold reader results_root job (record w { db = db }) k found only in
      turn_over-IsQuiet rest keeps _ (record { idle = quiet; well = keeps_well well })

  work-IsQuiet :
      (turns : ℕ) (w : World E)
      → IsQuiet w.db
      → IsQuiet (work site fold reader results_root worker_id once turns w).db
  unfolding work
  work-IsQuiet zero w h = h
  work-IsQuiet (suc turns) w h = elim (Bool-cases w.stopping) [
    | inl e ↦ rw e h
    | inr e ↦ simp e (
        take_turn-IsQuiet (work site fold reader results_root worker_id once turns)
          (work-IsQuiet turns) (claim_next_job worker_id (site.now w.env) w.db) w
          (claim_next_job-IsWellFormed worker_id (site.now w.env) w.db h.well)
          (claim_next_none worker_id (site.now w.env) w.db h.well.keyed h.idle)
          (claim_next_only worker_id (site.now w.env) w.db h.idle))
  ]

  recovered-IsQuiet :
      (reason : String) (now : ℕ) (db : Db)
      → IsWellFormed db
      → IsQuiet (fail_running_jobs reason now db).1
  unfolding fail_running_jobs
  recovered-IsQuiet reason now db h = record {
    idle = abandoned reason now db.jobs;
    well = fail_running_jobs-IsWellFormed reason now db h;
  }

  -- A worker that gets the lock over a well-formed table leaves no running job after any number of
  -- turns of its loop, and the table well-formed. One that does not get the lock changes no table.
  pub run_worker_quiet :
      (turns : ℕ) (w : World E)
      → IsWellFormed w.db
      → let r = run_worker site fold reader results_root worker_id once turns w in
        (r.0 ≡ true → All (λ j. is_running j.status ≡ false) r.1.db.jobs × IsWellFormed r.1.db)
        × (r.0 ≡ false → r.1.db ≡ w.db)
  unfolding run_worker
  run_worker_quiet turns w h = elim (Bool-cases (site.lock w.env).0) [
    | inl e ↦
        let e' = (site.lock w.env).1 in
        let q =
          work-IsQuiet turns
            (record w {
              env = e';
              db = (fail_running_jobs "worker restarted" (site.now e') w.db).1;
              stopping = false;
            })
            (recovered-IsQuiet "worker restarted" (site.now e') w.db h) in
        rw e (λ t. (q.idle, q.well), λ f. absurd (cc (f)))
    | inr e ↦ rw e (λ t. absurd (cc (t)), λ f. refl)
  ]
