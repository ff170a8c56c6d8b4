-- ===== src/Worker/Execute/Stages.antt =====
-- The stages of `execute_job` one by one: each leaves a later world.
use Prim.Native.Char.{Char}
use mathlib.Core.Option.{some-injective}
use yonwork_benchmark.Prelude.{
  ◌≤◌, suc, false, Option, some, none, List, [], ◌∷◌, String, Bool, true, inl, inr, ◌≡◌, length,
  ◌⊎◌, str_eq, Option-cases,
}
use yonwork_benchmark.JobStore.Later.{IsLaterTable-refl}
use yonwork_benchmark.JobStore.Table.{Job, Level}
use yonwork_benchmark.JobStore.Steps.{
  append_event-IsWellFormed, set_total_runs-IsWellFormed, set_completed_runs-IsWellFormed,
}
use yonwork_benchmark.JobStore.Queue.{append_event}
use yonwork_benchmark.Batch.Interfaces.{Driver, Collector, RunRecord}
use yonwork_benchmark.Batch.Round.Frame.{Respects}
use yonwork_benchmark.Batch.Loop.Laws.Frame.{run_batch-Ends}
use yonwork_benchmark.Assertions.Content.{JsonReader}
use yonwork_benchmark.Models.Cases.{TaskItem}
use yonwork_benchmark.Worker.World.{
  World, Site, Effect, raised, FollowUp, matched, skipped, broke, settle, driver_on, collector_on,
  clock_on,
}
use yonwork_benchmark.Worker.Execute.Evolve.{
  IsLaterWorld, later_same, later_trans, settle-IsLaterWorld, set_total_runs-IsLaterTable,
  set_completed_runs-IsLaterTable, Evolves, chain-Evolves,
}
use yonwork_benchmark.Worker.Execute.{
  announce_collector, export_sheet, follow_session, name_suite, ingest, call, log, log_each, follow,
  load_items, require_items, announce, batch_options, on_record, should_stop, lift_collector, batch,
  stop_collector, batch_value, run_rounds, publish,
}

module _ {E : Type 0} (site : Site E) (fold : Char → String) (reader : JsonReader)
    (results_root : String) (job : Job) where
  pub call-Evolves :
      {A : Type 0} (f : E → Effect A × E) → Evolves (call site fold reader results_root job f)
  unfolding call
  call-Evolves f w = settle-IsLaterWorld site (f w.env).1 w

  pub log-Evolves : (level : Level) → Evolves (log site fold reader results_root job level)
  unfolding log append_event
  log-Evolves level w = record {
    jobs = IsLaterTable-refl w.db.jobs;
    stays = λ h. h;
    well = append_event-IsWellFormed job.job_id level (site.now w.env) w.db;
  }

  pub log_each-Evolves :
      (lines : List String) → Evolves (log_each site fold reader results_root job lines)
  unfolding log_each
  log_each-Evolves [] w = later_same w
  log_each-Evolves (line ∷ lines) w =
      let w' = (log site fold reader results_root job Level.info w).1 in
      later_trans w w' _ (log-Evolves Level.info w) (log_each-Evolves lines w')

  pub follow-Evolves : (f : E → FollowUp × E) → Evolves (follow site fold reader results_root job f)
  unfolding follow
  follow-Evolves f w = from (f w.env).0
    where
      w' : World E
      w' = settle site (f w.env).1 w

      from :
          (r : FollowUp)
          → IsLaterWorld w
              (elim r as (λ x. Effect (Unit {0}) × World E) [
                | matched ↦
                    log site fold reader results_root job Level.info (settle site (f w.env).1 w)
                | skipped ↦
                    log site fold reader results_root job Level.warning (settle site (f w.env).1 w)
                | broke thrown ↦ (raised thrown, settle site (f w.env).1 w)
              ]).1
      from matched =
          later_trans w (settle site (f w.env).1 w) _ (settle-IsLaterWorld site (f w.env).1 w)
            (log-Evolves Level.info _)
      from skipped =
          later_trans w (settle site (f w.env).1 w) _ (settle-IsLaterWorld site (f w.env).1 w)
            (log-Evolves Level.warning _)
      from (broke thrown) = settle-IsLaterWorld site (f w.env).1 w

  pub load_items-Evolves : Evolves (load_items site fold reader results_root job)
  unfolding load_items
  load_items-Evolves =
      chain-Evolves _ _ (call-Evolves (site.load_case_set job.case_catalog_path job.case_set_id))
        (λ c w. later_same w)

  pub require_items-Evolves :
      (items : List TaskItem) → Evolves (require_items site fold reader results_root job items)
  unfolding require_items
  require_items-Evolves [] w = later_same w
  require_items-Evolves (item ∷ items) w = later_same w

  pub announce-Evolves :
      (items : List TaskItem) → Evolves (announce site fold reader results_root job items)
  unfolding announce
  announce-Evolves items w =
      later_trans w _ _
        (record {
          jobs = set_total_runs-IsLaterTable job.job_id (length items) (site.now w.env) w.db;
          stays = λ h. h;
          well = set_total_runs-IsWellFormed job.job_id (length items) (site.now w.env) w.db;
        })
        (log-Evolves Level.info _)

  pub announce_collector-Evolves :
      (c : Option (Collector E)) → Evolves (announce_collector site fold reader results_root job c)
  unfolding announce_collector
  announce_collector-Evolves none w = later_same w
  announce_collector-Evolves (some c) w =
      log_each-Evolves ("collecting" ∷ "check the base url" ∷ []) w

  pub stop_collector-Evolves :
      (c : Option (Collector E)) → Evolves (stop_collector site fold reader results_root job c)
  unfolding stop_collector
  stop_collector-Evolves none w = later_same w
  stop_collector-Evolves (some c) w = call-Evolves (site.stop_collector c) w

  pub batch_value-Evolves :
      (o : Option (List RunRecord)) → Evolves (batch_value site fold reader results_root job o)
  unfolding batch_value
  batch_value-Evolves none w = later_same w
  batch_value-Evolves (some rs) w = later_same w

  pub registered-IsLaterWorld :
      (product : String) (c : Collector E) (id : String) (w w' : World E)
      → (collector_on site c).register id product w ≡ some w'
      → IsLaterWorld w w'
  unfolding collector_on
  registered-IsLaterWorld product c id w w' r = elim (Option-cases (c.register id product w.env)) [
    | inl e ↦ absurd (cc (rw e at r))
    | inr (e, h) ↦ rw (← some-injective _ _ (rw h at r)) (settle-IsLaterWorld site e w)
  ]

  pub driver-Respects :
      (d : Driver E) (c : Option (Collector E))
      → Respects IsLaterWorld
          (driver_on site d)
          (lift_collector site fold reader results_root job c)
  unfolding driver_on lift_collector collector_on
  driver-Respects d none = record {
    same = later_same;
    trans = later_trans;
    runs = λ id p w. settle-IsLaterWorld site _ w;
    collects = λ t w. settle-IsLaterWorld site _ w;
    enriches = λ t w. settle-IsLaterWorld site _ w;
    registers = λ c e id w w' r. absurd (cc (e));
    closes = λ c e id w. absurd (cc (e));
  }
  driver-Respects d (some c) = record {
    same = later_same;
    trans = later_trans;
    runs = λ id p w. settle-IsLaterWorld site _ w;
    collects = λ t w. settle-IsLaterWorld site _ w;
    enriches = λ t w. settle-IsLaterWorld site _ w;
    registers = λ c' e id w w' r.
        registered-IsLaterWorld d.product c id w w' (rw (← some-injective _ _ e) at r);
    closes = λ c' e id w. rw (← some-injective _ _ e) (settle-IsLaterWorld site _ w);
  }

  pub recorded-IsLaterWorld :
      (r : RunRecord) (w w' : World E)
      → on_record site fold reader results_root job r w ≡ some w'
      → IsLaterWorld w w'
  unfolding on_record
  recorded-IsLaterWorld r w w' e = rw (← some-injective _ _ e) (record {
    jobs = set_completed_runs-IsLaterTable job.job_id (suc w.completed) (site.now w.env) w.db;
    stays = λ h. h;
    well = set_completed_runs-IsWellFormed job.job_id (suc w.completed) (site.now w.env) w.db;
  })

  pub batch_ends :
      (d : Driver E) (c : Option (Collector E)) (items : List TaskItem) (w : World E)
      → let b = batch site fold reader results_root job d c items w in
        IsLaterWorld w b.world
        × ((rs : List RunRecord)
            → b.records ≡ some rs
            → (length rs ≡ length items)
              ⊎ ((length rs ≤ length items)
                  × (should_stop site fold reader results_root job b.world ≡ true)))
  unfolding batch
  batch_ends d c items w =
      run_batch-Ends fold reader (clock_on site) (driver_on site d)
        (lift_collector site fold reader results_root job c)
        (batch_options site fold reader results_root job)
        (should_stop site fold reader results_root job)
        (on_record site fold reader results_root job) IsLaterWorld (driver-Respects d c)
        recorded-IsLaterWorld items [] w

  pub run_rounds-Evolves :
      (d : Driver E) (c : Option (Collector E)) (items : List TaskItem)
      → Evolves (run_rounds site fold reader results_root job d c items)
  unfolding run_rounds
  run_rounds-Evolves d c items w =
      let b = batch site fold reader results_root job d c items w in
      later_trans w b.world _ (batch_ends d c items w).0
        (chain-Evolves _ _ (stop_collector-Evolves c) (λ u. batch_value-Evolves b.records) b.world)

  pub export_sheet-Evolves : (b : Bool) → Evolves (export_sheet site fold reader results_root job b)
  unfolding export_sheet
  export_sheet-Evolves true w = call-Evolves (site.export_xlsx _) w
  export_sheet-Evolves false w = later_same w

  pub follow_session-Evolves :
      (b : Bool) → Evolves (follow_session site fold reader results_root job b)
  unfolding follow_session
  follow_session-Evolves true w = follow-Evolves (site.collect_session_usage _ _) w
  follow_session-Evolves false w = later_same w

  pub name_suite-Evolves : Evolves (name_suite site fold reader results_root job)
  unfolding name_suite
  name_suite-Evolves w = record {
    jobs = IsLaterTable-refl w.db.jobs;
    stays = λ h. h;
    well = λ h. h;
  }

  pub ingest-Evolves : Evolves (ingest site fold reader results_root job)
  unfolding ingest
  ingest-Evolves w = call-Evolves (site.ingest_file _ _ _ _) w

  pub publish-Evolves :
      (d : Driver E) (rs : List RunRecord)
      → Evolves (publish site fold reader results_root job d rs)
  unfolding publish
  publish-Evolves d [] = later_same
  publish-Evolves d (r ∷ rs) = chain-Evolves _ _ (call-Evolves (site.build_database _)) (λ built.
      chain-Evolves _ _ (export_sheet-Evolves job.export_xlsx) (λ exported.
        chain-Evolves _ _ ingest-Evolves (λ stored. chain-Evolves _ _ name_suite-Evolves (λ named.
          chain-Evolves _ _ (call-Evolves (site.summarize _)) (λ summary.
            chain-Evolves _ _ (log-Evolves Level.info) (λ logged.
              chain-Evolves _ _ (follow_session-Evolves (str_eq d.product "yonwork"))
                (λ session. follow-Evolves (site.reconcile_suite _))))))))
