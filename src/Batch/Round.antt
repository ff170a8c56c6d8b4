-- ===== src/Batch/Round.antt =====
-- `run_one` and `_collect_model_calls` of runner/batch.py.
pub mod Laws
pub mod Total
pub mod Frame
use yonwork_benchmark.Assertions.Evaluate.{evaluate}
use yonwork_benchmark.Usage.{log_stats_from_usage}
use yonwork_benchmark.Collector.Ledger.{is_counted}
use yonwork_benchmark.Models.Ids.{benchmark_id_for}
use yonwork_benchmark.Models.Cases.{TaskItem}
use yonwork_benchmark.Assertions.Completion.{Failure}
use yonwork_benchmark.Assertions.Content.{JsonReader}
use yonwork_benchmark.Models.Records.{
  usage_by, usage_sources, CollectionStatus, sample_from, UsageSample, ChatTurn,
}
use yonwork_benchmark.Batch.Interfaces.{
  UsageCollection, RunRecord, BatchOptions, Enrichment, ModelCallCollection, Collector, Driver,
  Clock, Outcome,
}
use Prim.Native.Char.{Char}
use yonwork_benchmark.Prelude.{
  ◌≡◌, ◌++◌, is_blank, any, str_eq, if◌then◌else◌, none, false, [], ◌∷◌, some, true, Option, Bool,
  List, String,
}

-- The loop of `run_one` over the sources, with its `break`.
pick_usage : List String → List UsageSample → Option UsageSample → Option UsageSample
pick_usage [] samples usage = usage
pick_usage (source ∷ sources) samples usage = elim (sample_from source samples) [
  | some sample ↦ some sample
  | none ↦ pick_usage sources samples none
]

-- `next((sample … "newapi"), usage)`
log_sample : List UsageSample → Option UsageSample → Option UsageSample
log_sample samples usage = elim (sample_from "newapi" samples) [
  | some sample ↦ some sample
  | none ↦ usage
]

-- A clause of the exception handler: `failure`, and `turn = getattr(exc, "partial", None)`.
abbrev pub turn_of : Outcome → Option ChatTurn
turn_of (Outcome.returned turn) = some turn
turn_of (Outcome.raised failure partial) = partial
turn_of Outcome.interrupted = none

abbrev pub failure_of : Outcome → Option Failure
failure_of (Outcome.returned turn) = none
failure_of (Outcome.raised failure partial) = some failure
failure_of Outcome.interrupted = none

abbrev pub is_interrupted : Outcome → Bool
is_interrupted Outcome.interrupted = true
is_interrupted _ = false

mark_enrich_failed : ChatTurn → ChatTurn
mark_enrich_failed turn = record turn {
  tool_calls_status = "error";
  tool_calls_source = "driver-enrich";
  tool_calls_detail = "enrich failed";
}

module _ {W : Type 0} (fold : Char → String) (reader : JsonReader) (clock : Clock W)
    (driver : Driver W) (collector : Option (Collector W)) where
  -- `none`: `collector.register` raised, which `run_one` does not catch.
  unfoldable pub register_run : String → W → Option W
  register_run benchmark_id w = elim collector [
    | none ↦ some w
    | some c ↦ c.register benchmark_id driver.product w
  ]

  close_run : String → W → W
  close_run benchmark_id w = elim collector [ none ↦ w | some c ↦ c.close_run benchmark_id w ]

  -- The usage step: `none` where `collect_usage` raised, which `run_one` does not catch.
  collect : BatchOptions → Option ChatTurn → W → Option UsageCollection × W
  collect options none w = (some (record { samples = []; notes = [] }), w)
  collect options (some turn) w =
      if options.collect_usage
      then driver.collect_usage turn w
      else (some (record { samples = []; notes = [] }), w)

  enriched_turn : Enrichment → ChatTurn → Option ChatTurn
  unfolding mark_enrich_failed
  enriched_turn (Enrichment.enriched turn') turn = some turn'
  enriched_turn Enrichment.missing_method turn = none
  enriched_turn Enrichment.failed turn = some (mark_enrich_failed turn)

  -- The enrichment step; the outer `none` is an `AttributeError`, which is raised again.
  enrich : Option ChatTurn → W → Option (Option ChatTurn) × W
  unfolding enriched_turn
  enrich none w = (some none, w)
  enrich (some turn) w =
      let (e, w') = driver.enrich turn w in
      (elim (enriched_turn e turn) [ none ↦ none | some t ↦ some (some t) ], w')

  tool_notes : Option ChatTurn → List String
  tool_notes none = []
  tool_notes (some turn) =
      if str_eq turn.tool_calls_status "observed"
      then []
      else (if is_blank turn.tool_calls_detail
          then "tool calls not collected"
          else turn.tool_calls_detail)
        ∷ []

  collect_model_calls : String → W → ModelCallCollection
  collect_model_calls benchmark_id w = elim collector [
    | none ↦ record { status = CollectionStatus.disabled; requests = []; ledger_path = none }
    | some c ↦ record {
      status =
          if any (λ r. is_counted r.attribution) (c.records_for benchmark_id w)
          then CollectionStatus.observed
          else CollectionStatus.unavailable;
      requests = c.records_for benchmark_id w;
      ledger_path = some (c.ledger_path w);
    }
  ]

  model_notes : ModelCallCollection → List String
  model_notes calls = elim calls.status [
    | CollectionStatus.unavailable ↦ "no request attributed" ∷ []
    | other ↦ []
  ]

  -- Everything after the evidence is in: judge it and write the record.
  judge :
      TaskItem
      → BatchOptions
      → String
      → Option Failure
      → Option ChatTurn
      → UsageCollection
      → W
      → RunRecord
  unfolding pick_usage log_sample tool_notes collect_model_calls model_notes
  judge item options benchmark_id failure turn collected w =
      let usage = pick_usage usage_sources collected.samples none in
      let log_stats = log_stats_from_usage (log_sample collected.samples usage) turn in
      let model_calls = collect_model_calls benchmark_id w in
      let evaluation = evaluate fold reader (record {
        turn = turn;
        expectations = item.expectations;
        usage = usage;
        log_stats = some log_stats;
        failure = failure;
      }) in
      record {
        benchmark_id = benchmark_id;
        batch_id = options.batch_id;
        position = item.position;
        case_name = item.case_name;
        run_no = item.run_no;
        prompt = item.prompt;
        session_key = driver.session_key benchmark_id;
        verdict = evaluation.verdict;
        product = driver.product;
        checks = evaluation.checks;
        turn = turn;
        usage_samples = collected.samples;
        log_stats = log_stats;
        model_calls = model_calls;
        notes = collected.notes ++ (tool_notes turn ++ model_notes model_calls);
        created_at = clock.now_iso w;
      }

  -- After the enrichment: judge, unless an `AttributeError` was raised again.
  finish_round :
      TaskItem
      → BatchOptions
      → String
      → Outcome
      → UsageCollection
      → Option (Option ChatTurn)
      → W
      → Option RunRecord × W
  unfolding judge
  finish_round item options benchmark_id outcome usage none w = (none, w)
  finish_round item options benchmark_id outcome usage (some turn) w =
      (some (judge item options benchmark_id (failure_of outcome) turn usage w), w)

  -- After the usage step: enrich, unless `collect_usage` raised.
  with_usage :
      TaskItem → BatchOptions → String → Outcome → Option UsageCollection → W → Option RunRecord × W
  unfolding enrich finish_round
  with_usage item options benchmark_id outcome none w = (none, w)
  with_usage item options benchmark_id outcome (some usage) w =
      let (turn, w') = enrich (turn_of outcome) w in
      finish_round item options benchmark_id outcome usage turn w'

  -- What follows the `try`: nothing, if the exception goes on.
  after_turn : TaskItem → BatchOptions → String → Outcome → W → Option RunRecord × W
  unfolding collect with_usage
  after_turn item options benchmark_id outcome w =
      let (collected, w') = collect options (turn_of outcome) w in
      if is_interrupted outcome
      then (none, w)
      else with_usage item options benchmark_id outcome collected w'

  -- `finally` closes the run on every way out of the `try`.
  registered : TaskItem → BatchOptions → String → Option W → W → Option RunRecord × W
  unfolding close_run after_turn
  registered item options benchmark_id none w = (none, w)
  registered item options benchmark_id (some w₁) w =
      let (outcome, w₂) = driver.run_turn benchmark_id item.prompt w₁ in
      after_turn item options benchmark_id outcome (close_run benchmark_id w₂)

  -- The id that a round started in world `w` gets.
  abbrev pub round_id : TaskItem → BatchOptions → W → String
  round_id item options w =
      benchmark_id_for options.id_prefix item.case_name item.run_no (clock.stamp w)

  unfoldable pub run_one : TaskItem → BatchOptions → W → Option RunRecord × W
  unfolding register_run registered
  run_one item options w =
      let benchmark_id = round_id item options w in
      registered item options benchmark_id (register_run benchmark_id w) w
