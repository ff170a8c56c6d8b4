-- ===== src/Worker/Execute.antt =====
-- `execute_job` of runner/worker.py. The body of its `try` is a chain of stages, each of which may
-- raise; what the handlers and the end of the body write to the job's row is `conclude`.
pub mod Evolve
pub mod Stages
pub mod Perform
pub mod Ends
use yonwork_benchmark.Prelude.{
  false, true, Option, some, none, List, [], ◌∷◌, ℕ, zero, suc, ℤ, pos, negsuc, String, Bool,
  if◌then◌else◌, ◌&&◌, ◌||◌, ltb, length, take, concat, take_chars, is_blank, str_eq,
}
use yonwork_benchmark.JobStore.Table.{Job, Status, Level, done, refused}
use yonwork_benchmark.JobStore.Queue.{
  append_event, set_total_runs, set_completed_runs, is_cancel_requested, finish_job,
}
use yonwork_benchmark.Batch.Interfaces.{Driver, Collector, BatchOptions, RunRecord}
use yonwork_benchmark.Batch.Loop.{run_batch, BatchResult}
use yonwork_benchmark.Models.Cases.{TaskItem, expand_cases}
use yonwork_benchmark.Assertions.Content.{JsonReader}
use yonwork_benchmark.Worker.World.{
  Thrown, World, Site, Effect, value, raised, FollowUp, matched, skipped, broke, DriverSpec, settle,
  driver_on, collector_on, clock_on,
}
use Prim.Native.Char.{Char}

-- A stage of the `try` body.
abbrev pub Stage : Type 0 → Type 0 → Type 0
Stage E A = World E → Effect A × World E

-- An exception skips the stages after it.
abbrev pub continue : {E A B : Type 0} → Effect A × World E → (A → Stage E B) → Effect B × World E
continue (raised thrown, w) next = (raised thrown, w)
continue (value a, w) next = next a w

infixl 5 ◌>>=◌
unfoldable pub ◌>>=◌ : {E A B : Type 0} → Stage E A → (A → Stage E B) → Stage E B
(stage >>= next) w = continue (stage w) next

-- `text or default`
text_or : String → String → String
text_or text default = if is_blank text then default else text

-- `items[:limit]` for a positive limit.
limit_items : ℤ → List TaskItem → List TaskItem
limit_items (pos zero) items = items
limit_items (pos (suc n)) items = take (suc n) items
limit_items (negsuc n) items = items

-- `float(… or 600)`; a time-out that is not positive is not in the table.
timeout_of : ℤ → ℕ
timeout_of (pos zero) = 600000
timeout_of (pos n) = n
timeout_of (negsuc n) = 0

-- The status at the end of the body.
unfoldable pub final_status : Bool → Bool → Status
final_status cancelled interrupted =
    if cancelled then Status.cancelled else if interrupted then Status.failed else Status.completed

abbrev pub stop_message : String
stop_message = "Worker 收到停止信号；已保存完成轮次，任务未全部执行"

-- The error that is stored at the end of the body.
unfoldable pub final_error : Bool → Bool → String
final_error cancelled interrupted =
    if cancelled then "" else if interrupted then stop_message else ""

-- The error that the two handlers store.
unfoldable pub handler_error : Thrown → String
unfolding concat
handler_error thrown =
    if thrown.listed then thrown.text else concat thrown.class_name (concat ": " thrown.text)

abbrev no_rounds : Thrown
no_rounds = record { listed = true; class_name = "CaseCatalogError"; text = "选中的 Case Set 没有可执行轮次" }

module _ {E : Type 0} (site : Site E) (fold : Char → String) (reader : JsonReader)
    (results_root : String) (job : Job) where
  out_dir : String
  unfolding concat
  out_dir = concat results_root (concat "/" job.batch_id)

  results_path : String
  unfolding out_dir concat
  results_path = concat out_dir "/results.jsonl"

  -- A call to the outside, as a stage.
  pub call : {A : Type 0} → (E → Effect A × E) → Stage E A
  unfolding settle
  call f w = let (r, e) = f w.env in (r, settle site e w)

  -- `_log`
  pub log : Level → Stage E (Unit {0})
  unfolding append_event
  log level w = (value tt, record w { db = append_event job.job_id level (site.now w.env) w.db })

  pub log_each : List String → Stage E (Unit {0})
  log_each [] w = (value tt, w)
  log_each (line ∷ lines) w = log_each lines (log Level.info w).1

  pub follow : (E → FollowUp × E) → Stage E (Unit {0})
  unfolding settle log
  follow f w =
      let (r, e) = f w.env in
      elim r [
        | matched ↦ log Level.info (settle site e w)
        | skipped ↦ log Level.warning (settle site e w)
        | broke thrown ↦ (raised thrown, settle site e w)
      ]

  pub load_items : Stage E (List TaskItem)
  unfolding call limit_items
  load_items =
      call (site.load_case_set job.case_catalog_path job.case_set_id)
      >>= (λ case_set w. (value (limit_items job.limit_runs (expand_cases case_set.cases)), w))

  -- An empty batch is an error of the catalog.
  pub require_items : List TaskItem → Stage E (Unit {0})
  require_items [] w = (raised no_rounds, w)
  require_items (item ∷ items) w = (value tt, w)

  pub announce : List TaskItem → Stage E (Unit {0})
  unfolding set_total_runs log
  announce items w =
      log Level.info
        (record w { db = set_total_runs job.job_id (length items) (site.now w.env) w.db })

  driver_spec : DriverSpec
  unfolding text_or timeout_of concat out_dir
  driver_spec = record {
    product = text_or job.product "yonwork";
    agent_id = text_or job.agent_id "main";
    model_query = job.model_query;
    timeout_seconds = timeout_of job.timeout_seconds;
    transcript_dir = concat out_dir "/transcripts";
    allow_tools = job.allow_tools;
  }

  pub batch_options : BatchOptions
  unfolding concat take_chars
  batch_options = record {
    batch_id = job.batch_id;
    id_prefix = concat "web-" (take_chars 8 job.job_id);
    collect_usage = job.collect_usage;
  }

  pub on_record : RunRecord → World E → Option (World E)
  unfolding set_completed_runs
  on_record r w = some (record w {
    completed = suc w.completed;
    db = set_completed_runs job.job_id (suc w.completed) (site.now w.env) w.db;
  })

  unfoldable pub should_stop : World E → Bool
  unfolding is_cancel_requested
  should_stop w = w.stopping || is_cancel_requested job.job_id w.db

  pub lift_collector : Option (Collector E) → Option (Collector (World E))
  unfolding collector_on
  lift_collector none = none
  lift_collector (some c) = some (collector_on site c)

  pub batch : Driver E → Option (Collector E) → List TaskItem → World E → BatchResult (World E)
  unfolding driver_on clock_on lift_collector on_record should_stop batch_options
  batch driver collector items w =
      run_batch fold reader (clock_on site) (driver_on site driver) (lift_collector collector)
        batch_options should_stop on_record items [] w

  -- The two lines of `_build_collector`.
  pub announce_collector : Option (Collector E) → Stage E (Unit {0})
  unfolding log_each
  announce_collector none w = (value tt, w)
  announce_collector (some c) w = log_each ("collecting" ∷ "check the base url" ∷ []) w

  -- `finally`: the collector is stopped, and its own exception would replace the batch's result.
  pub stop_collector : Option (Collector E) → Stage E (Unit {0})
  unfolding call
  stop_collector none w = (value tt, w)
  stop_collector (some c) w = call (site.stop_collector c) w

  -- What `run_batch` raises is caught as any exception: a signal raises no `KeyboardInterrupt` here,
  -- since the handler of `run_worker` takes it.
  pub batch_value : Option (List RunRecord) → Stage E (List RunRecord)
  batch_value none w = (raised (site.batch_exception w.env), w)
  batch_value (some records) w = (value records, w)

  pub run_rounds : Driver E → Option (Collector E) → List TaskItem → Stage E (List RunRecord)
  unfolding batch stop_collector batch_value
  run_rounds driver collector items w =
      let b = batch driver collector items w in
      (stop_collector collector >>= (λ u. batch_value b.records)) b.world

  pub export_sheet : Bool → Stage E (Unit {0})
  unfolding call out_dir concat
  export_sheet true = call (site.export_xlsx (concat out_dir "/results.xlsx"))
  export_sheet false = λ w. (value tt, w)

  pub name_suite : Stage E (Unit {0})
  name_suite w = (value tt, record w { suite_id = some (site.suite_id_for job.experiment_name) })

  -- Only YonWork keeps session files.
  pub follow_session : Bool → Stage E (Unit {0})
  unfolding follow text_or
  follow_session true = follow (
      site.collect_session_usage (site.suite_id_for job.experiment_name)
        (text_or job.agent_id "main"))
  follow_session false = λ w. (value tt, w)

  pub ingest : Stage E (Unit {0})
  unfolding call results_path text_or
  ingest = call (
      site.ingest_file results_path job.experiment_name (text_or job.product "yonwork")
        (text_or job.agent_id "main"))

  -- The files, the database of results, and the follow-ups on the usage, if there are records.
  pub publish : Driver E → List RunRecord → Stage E (Unit {0})
  unfolding call follow log results_path export_sheet name_suite follow_session ingest
  publish driver [] = λ w. (value tt, w)
  publish driver (r ∷ rs) = do
    built ← call (site.build_database results_path)
    exported ← export_sheet job.export_xlsx
    stored ← ingest
    named ← name_suite
    summary ← call (site.summarize results_path)
    logged ← log Level.info
    session ← follow_session (str_eq driver.product "yonwork")
    follow (site.reconcile_suite (site.suite_id_for job.experiment_name))

  -- Answers the records and the items.
  unfoldable pub perform : Stage E (List RunRecord × List TaskItem)
  unfolding load_items require_items announce call log_each announce_collector run_rounds publish
      driver_spec
  perform = do
    items ← load_items
    checked ← require_items items
    announced ← announce items
    driver ← call (site.build_driver driver_spec)
    lines ← call (site.preflight driver)
    logged ← log_each lines
    collector ← call (site.build_collector job.batch_id)
    told ← announce_collector collector
    records ← run_rounds driver collector items
    closed ← call (site.close_driver driver)
    published ← publish driver records
    (λ w. (value (records, items), w))

  -- `results_path` is stored only if the file is there.
  stored_path : World E → Option String
  unfolding results_path
  stored_path w = if site.is_file results_path w.env then some results_path else none

  -- `finish_job` and `_terminal_log`.
  finish_with : Status → String → Level → World E → World E
  unfolding finish_job stored_path append_event
  finish_with status error level w =
      elim (finish_job job.job_id status w.suite_id (stored_path w) error (site.now w.env) w.db) [
        | done db ↦ record w { db = append_event job.job_id level (site.now w.env) db }
        | refused e ↦ w
      ]

  unfoldable pub is_interrupted : List RunRecord → List TaskItem → World E → Bool
  is_interrupted records items w = w.stopping && ltb (length records) (length items)

  conclude : Effect (List RunRecord × List TaskItem) × World E → World E
  unfolding finish_with final_status final_error handler_error is_interrupted is_cancel_requested
  conclude (raised thrown, w) = finish_with Status.failed (handler_error thrown) Level.error_level w
  conclude (value (records, items), w) =
      let cancelled = is_cancel_requested job.job_id w.db in
      let interrupted = is_interrupted records items w in
      finish_with (final_status cancelled interrupted) (final_error cancelled interrupted)
        (if interrupted then Level.warning else Level.info) w

  unfoldable pub execute_job : World E → World E
  unfolding perform conclude
  execute_job w = conclude (perform (record w { completed = 0; suite_id = none }))
