-- ===== src/Batch/Interfaces.antt =====
-- What a batch needs of a driver (runner/drivers/base.py), of the collector and of the clock, over
-- a state of the outside world that their calls change.
use yonwork_benchmark.Collector.Ledger.{ModelRequestRecord}
use yonwork_benchmark.Assertions.Completion.{Failure}
use yonwork_benchmark.Models.Severity.{Verdict}
use yonwork_benchmark.Models.Records.{
  LogStats, usage_sources, UsageSample, Check, ChatTurn, CollectionStatus, usage_by,
}
use yonwork_benchmark.Prelude.{List, Option, Bool, ℕ, String}

-- How a call of `run_turn` ends. `interrupted` is `KeyboardInterrupt` or `SystemExit`; an exception
-- may carry a half-finished round as its `partial`.
pub data Outcome : Type 0 where
  returned : ChatTurn → Outcome
  raised : Failure → Option ChatTurn → Outcome
  interrupted : Outcome

-- How a call of `enrich` ends: `missing_method` is `AttributeError`, or an exception that is no
-- `Exception`, and goes on; `failed` is any other exception.
pub data Enrichment : Type 0 where
  enriched : ChatTurn → Enrichment
  missing_method failed : Enrichment

pub record UsageCollection : Type 0 where
  pub samples : List UsageSample
  pub notes : List String

-- `collect_usage` answers `none` where it raises.
pub record Driver (W : Type 0) : Type 0 where
  pub product : String
  pub session_key : String → String
  pub run_turn : String → String → W → Outcome × W
  pub collect_usage : ChatTurn → W → Option UsageCollection × W
  pub enrich : ChatTurn → W → Enrichment × W

-- `register` answers `none` where it raises `ProxyError`.
pub record Collector (W : Type 0) : Type 0 where
  pub register : String → String → W → Option W
  pub close_run : String → W → W
  pub records_for : String → W → List ModelRequestRecord
  pub ledger_path : W → String

-- The milliseconds since the epoch in hexadecimal, and `now_iso`.
pub record Clock (W : Type 0) : Type 0 where
  pub stamp : W → String
  pub now_iso : W → String

pub record BatchOptions : Type 0 where
  pub batch_id : String
  pub id_prefix : String
  pub collect_usage : Bool

pub record ModelCallCollection : Type 0 where
  pub status : CollectionStatus
  pub requests : List ModelRequestRecord
  pub ledger_path : Option String

-- `notes` are the parts of `note` that come before the summary of the failed checks.
pub record RunRecord : Type 0 where
  pub benchmark_id : String
  pub batch_id : String
  pub position : ℕ
  pub case_name : String
  pub run_no : ℕ
  pub prompt : String
  pub session_key : String
  pub verdict : Verdict
  pub product : String
  pub checks : List Check
  pub turn : Option ChatTurn
  pub usage_samples : List UsageSample
  pub log_stats : LogStats
  pub model_calls : ModelCallCollection
  pub notes : List String
  pub created_at : String

-- `RunRecord.usage`
unfoldable pub usage_of : RunRecord → Option UsageSample
unfolding usage_by
usage_of r = usage_by usage_sources r.usage_samples
