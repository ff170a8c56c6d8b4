-- ===== src/Worker/World.antt =====
-- The state of a worker of runner/worker.py, and what it calls outside of the modelled files.
use mathlib.Core.Option
use yonwork_benchmark.Prelude.{Option, List, [], ◌∷◌, ℕ, String, Bool, ◌||◌}
use yonwork_benchmark.JobStore.Table.{Db, done, refused}
use yonwork_benchmark.JobStore.Create.{create_job, create_plan, NewJob, NewPlan, Stamp}
use yonwork_benchmark.JobStore.Queue.{request_cancel, cancel_plan}
use yonwork_benchmark.Batch.Interfaces.{Driver, Collector, Clock}
use yonwork_benchmark.Models.Cases.{CaseDefinition}

-- What the web server commits while the worker is busy.
pub data Request : Type 0 where
  submit : NewJob → String → Stamp → Request
  submit_plan : NewPlan → String → (ℕ → String) → Stamp → Request
  stop : String → ℕ → Request
  stop_plan : String → ℕ → Request

unfoldable pub serve : Request → Db → Db
unfolding create_job create_plan request_cancel cancel_plan
serve (Request.submit spec uuid stamp) db = elim (create_job spec uuid stamp db) [
  | done made ↦ made.1
  | refused e ↦ db
]
serve (Request.submit_plan spec plan uuids stamp) db = elim (create_plan spec plan uuids stamp db) [
  | done db' ↦ db'
  | refused e ↦ db
]
serve (Request.stop id now) db = (request_cancel id now db).1
serve (Request.stop_plan plan now) db = (cancel_plan plan now db).1

unfoldable pub serve_all : List Request → Db → Db
unfolding serve
serve_all [] db = db
serve_all (r ∷ rs) db = serve_all rs (serve r db)

-- An exception: whether it is of a class that the first handler of `execute_job` lists, or of another
-- one, which the second handler catches; the name of its class, and `str(exc)`.
pub record Thrown : Type 0 where
  pub listed : Bool
  pub class_name : String
  pub text : String

-- The result of a call: a value, or an exception.
pub data Effect (A : Type 0) : Type 0 where
  value : A → Effect A
  raised : Thrown → Effect A

-- How a follow-up on the usage ends: `skipped` is an exception that `execute_job` only logs.
pub data FollowUp : Type 0 where
  matched skipped : FollowUp
  broke : Thrown → FollowUp

pub record CaseSet : Type 0 where
  pub name : String
  pub cases : List CaseDefinition

pub record DriverSpec : Type 0 where
  pub product : String
  pub agent_id : String
  pub model_query : String
  pub timeout_seconds : ℕ
  pub transcript_dir : String
  pub allow_tools : Bool

-- The calls, on a state `E` of the outside world. `batch_exception` is what leaves a batch that raises,
-- any exception at all, since the model of the batch does not keep it. `requests` and `signal` are what has come in by
-- the time of a state: requests to the web server, and a signal to stop.
pub record Site (E : Type 0) : Type 0 where
  pub now : E → ℕ
  pub clock : Clock E
  pub requests : E → List Request
  pub signal : E → Bool
  pub lock : E → Bool × E
  pub sleep : E → E
  pub batch_exception : E → Thrown
  pub is_file : String → E → Bool
  pub load_case_set : String → String → E → Effect CaseSet × E
  pub build_driver : DriverSpec → E → Effect (Driver E) × E
  pub preflight : Driver E → E → Effect (List String) × E
  pub close_driver : Driver E → E → Effect (Unit {0}) × E
  pub build_collector : String → E → Effect (Option (Collector E)) × E
  pub stop_collector : Collector E → E → Effect (Unit {0}) × E
  pub build_database : String → E → Effect (Unit {0}) × E
  pub export_xlsx : String → E → Effect (Unit {0}) × E
  pub ingest_file : String → String → String → String → E → Effect (Unit {0}) × E
  pub suite_id_for : String → String
  pub summarize : String → E → Effect (Unit {0}) × E
  pub collect_session_usage : String → String → E → FollowUp × E
  pub reconcile_suite : String → E → FollowUp × E

-- `stopping` is set by the signal handler; `completed` and `suite_id` are locals of `execute_job`
-- that its inner functions and its handlers use.
pub record World (E : Type 0) : Type 0 where
  pub env : E
  pub db : Db
  pub stopping : Bool
  pub completed : ℕ
  pub suite_id : Option String

module _ {E : Type 0} (site : Site E) where
  -- After a call: the web server's transactions are in the tables, a signal has been handled.
  unfoldable pub settle : E → World E → World E
  unfolding serve_all
  settle e w = record w {
    env = e;
    db = serve_all (site.requests e) w.db;
    stopping = w.stopping || site.signal e;
  }

  -- A driver, a collector and a clock, as the batch of a worker uses them.
  unfoldable pub driver_on : Driver E → Driver (World E)
  unfolding settle
  driver_on d = record {
    product = d.product;
    session_key = d.session_key;
    run_turn =
        λ id prompt w. let (outcome, e) = d.run_turn id prompt w.env in (outcome, settle e w);
    collect_usage = λ turn w. let (usage, e) = d.collect_usage turn w.env in (usage, settle e w);
    enrich = λ turn w. let (ending, e) = d.enrich turn w.env in (ending, settle e w);
  }

  unfoldable pub collector_on : Collector E → Collector (World E)
  unfolding settle
  collector_on c = record {
    register = λ id product w. Option.map (λ e. settle e w) (c.register id product w.env);
    close_run = λ id w. settle (c.close_run id w.env) w;
    records_for = λ id w. c.records_for id w.env;
    ledger_path = λ w. c.ledger_path w.env;
  }

  unfoldable pub clock_on : Clock (World E)
  clock_on = record { stamp = λ w. site.clock.stamp w.env; now_iso = λ w. site.clock.now_iso w.env }
