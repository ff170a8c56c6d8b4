-- ===== src/Tests/Worker.antt =====
-- A worker that runs one job, and one whose catalog is missing.
use mathlib.Core.Option
use yonwork_benchmark.Batch.Loop.{run_batch}
use mathlib.Core.Option.{Option}
use yonwork_benchmark.Prelude.{
  some, none, [], ◌∷◌, ℕ, suc, pos, true, false, ◌≡◌, refl, ◌↔◌, All, is_some,
}
use yonwork_benchmark.JobStore.Table.{Job, Status, is_running, is_terminal, find_job}
use yonwork_benchmark.JobStore.Invariant.{IsWellFormed}
use yonwork_benchmark.JobStore.Steps.{no_jobs}
use yonwork_benchmark.Batch.Interfaces.{Driver, Outcome, Enrichment}
use mathlib.Core.Path.{subst}
use yonwork_benchmark.Prelude.{is_blank, sym, ◌∙◌, ◌↔◌, String, List}
use yonwork_benchmark.Models.Cases.{TaskItem}
use yonwork_benchmark.Batch.Interfaces.{RunRecord}
use yonwork_benchmark.Worker.World.{Thrown, Effect, World, Site, value, raised, matched, skipped}
use yonwork_benchmark.Worker.Execute.{◌>>=◌, execute_job, perform}
use yonwork_benchmark.Worker.Execute.Ends.{
  execute_job_ends, execute_job_completed, execute_job_blames, RanAll,
}
use yonwork_benchmark.Models.Cases.{expand_cases}
use yonwork_benchmark.Batch.Round.{run_one}
use yonwork_benchmark.Batch.Loop.{run_batch}
use yonwork_benchmark.Prelude.{leb}
use yonwork_benchmark.Worker.Loop.{run_worker, run_worker_quiet}
use yonwork_benchmark.Tests.Data.{fold, reader, turn, hello}

-- The world counts the calls.
abbrev echo : Driver ℕ
echo = record {
  product = "yonwork";
  session_key = λ id. id;
  run_turn =
      λ id p w. (Outcome.returned (record turn { benchmark_id = id; run_id = some id }), suc w);
  collect_usage = λ t w. (some (record { samples = []; notes = [] }), suc w);
  enrich = λ t w. (Enrichment.enriched t, suc w);
}

abbrev steady : Site ℕ
steady = record {
  now = λ w. w;
  clock = record { stamp = λ w. "1a"; now_iso = λ w. "10:00" };
  requests = λ w. [];
  signal = λ w. false;
  lock = λ w. (true, w);
  sleep = λ w. suc w;
  batch_exception = λ w. record { listed = false; class_name = "KeyError"; text = "'x'" };
  is_file = λ path w. true;
  load_case_set = λ path id w. (value (record { name = "smoke"; cases = hello ∷ [] }), suc w);
  build_driver = λ spec w. (value echo, suc w);
  preflight = λ d w. (value ("ready" ∷ []), suc w);
  close_driver = λ d w. (value tt, suc w);
  build_collector = λ id w. (value none, suc w);
  stop_collector = λ c w. (value tt, suc w);
  build_database = λ path w. (value tt, suc w);
  export_xlsx = λ path w. (value tt, suc w);
  ingest_file = λ path name product agent w. (value tt, suc w);
  suite_id_for = λ name. "suite";
  summarize = λ path w. (value tt, suc w);
  collect_session_usage = λ suite agent w. (matched, suc w);
  reconcile_suite = λ suite w. (skipped, suc w);
}

abbrev catalog_error : Thrown
catalog_error = record { listed = true; class_name = "CaseCatalogError"; text = "no catalog" }

abbrev no_catalog : Site ℕ
no_catalog = record steady { load_case_set = λ path id w. (raised catalog_error, suc w) }

abbrev job : Job
job = record {
  job_id = "00000001";
  plan_id = none;
  plan_position = 0;
  plan_label = "";
  batch_id = "web-noon";
  experiment_name = "trial";
  case_catalog_path = "cases/catalog.yaml";
  case_set_id = "smoke";
  product = "yonwork";
  model_query = "";
  agent_id = "main";
  timeout_seconds = pos 600000;
  limit_runs = pos 0;
  collect_usage = true;
  export_xlsx = true;
  allow_tools = false;
  status = Status.running;
  total_runs = 0;
  completed_runs = 0;
  suite_id = none;
  results_path = none;
  worker_id = some "w";
  cancel_requested = false;
  error = none;
  created_at = 1;
  started_at = some 2;
  finished_at = none;
  updated_at = 2;
}

abbrev started : World ℕ
started = record {
  env = 3;
  db = record { jobs = job ∷ []; events = [] };
  stopping = false;
  completed = 0;
  suite_id = none;
}

stored : find_job "00000001" started.db.jobs ≡ some job
unfolding find_job
stored = refl

execute_job_ends_example :
    ((k : Job) × (find_job "00000001" (execute_job steady fold reader "results" job started).db.jobs
        ≡ some k)
      × (is_terminal k.status ≡ true)
      × (is_some k.finished_at ≡ true))
    × All
        (λ i. is_running i.status ≡ false)
        (execute_job steady fold reader "results" job started).db.jobs
    × (IsWellFormed started.db
        → IsWellFormed (execute_job steady fold reader "results" job started).db)
execute_job_ends_example =
    execute_job_ends steady fold reader "results" job started job stored (λ r. refl, tt)

execute_job_completed_example :
    (execute_job_ends_example.0.0.status ≡ Status.completed)
    ↔ RanAll steady fold reader "results" job (perform steady fold reader "results" job started)
execute_job_completed_example =
    execute_job_completed steady fold reader "results" job started job execute_job_ends_example.0.0
      stored execute_job_ends_example.0.1

completes :
    Option.map
      (λ (k : Job). k.status)
      (find_job "00000001" (execute_job steady fold reader "results" job started).db.jobs)
    ≡ some Status.completed
unfolding perform ◌>>=◌ execute_job find_job expand_cases run_batch run_one
completes = refl

-- A signal that comes after the first round: the job is Failed, since its second round is missing.
abbrev signalled : Site ℕ
signalled = record steady { signal = λ w. leb 9 w }

interrupted :
    Option.map
      (λ (k : Job). k.status)
      (find_job "00000001" (execute_job signalled fold reader "results" job started).db.jobs)
    ≡ some Status.failed
unfolding perform ◌>>=◌ execute_job find_job expand_cases run_batch run_one
interrupted = refl

missing : (perform no_catalog fold reader "results" job started).0 ≡ raised catalog_error
unfolding perform ◌>>=◌
missing = refl

missing_text :
    (t : Thrown)
    → (perform no_catalog fold reader "results" job started).0 ≡ raised t
    → t.listed ≡ true
    → is_blank t.text ≡ false
missing_text t h l = subst (λ (x : Thrown). is_blank x.text ≡ false) (same (sym missing ∙ h)) refl
  where
    same :
        ◌≡◌ {A = Effect (List RunRecord × List TaskItem)} (raised catalog_error) (raised t)
        → catalog_error ≡ t
    same e = cc (e)

execute_job_blames_example :
    (k : Job) × (error : String) × (find_job "00000001"
        (execute_job no_catalog fold reader "results" job started).db.jobs
      ≡ some k)
    × (k.error ≡ some error)
    × ((is_blank error ≡ false) ↔ (k.status ≡ Status.failed))
execute_job_blames_example =
    execute_job_blames no_catalog fold reader "results" job started job stored missing_text

-- The job that runs is recovered before the first claim, since the worker that ran it is dead.
run_worker_quiet_example :
    let r = run_worker steady fold reader "results" "w" false 3 (record started { db = no_jobs }) in
    (r.0 ≡ true → All (λ j. is_running j.status ≡ false) r.1.db.jobs × IsWellFormed r.1.db)
    × (r.0 ≡ false → r.1.db ≡ no_jobs)
run_worker_quiet_example =
    run_worker_quiet steady fold reader "results" "w" false 3 (record started { db = no_jobs })
      (record { keyed = tt; sound = tt })
