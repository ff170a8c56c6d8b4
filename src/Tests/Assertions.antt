-- ===== src/Tests/Assertions.antt =====
-- The verdict on one round.
use yonwork_benchmark.Assertions.Accept.{evaluate_pass, IsAcceptable}
use yonwork_benchmark.Assertions.Verdicts.{evaluate_lost, nothing_counted, evaluate_misattributed}
use yonwork_benchmark.Models.Severity.{Verdict, worst}
use yonwork_benchmark.Assertions.Cost.{check_cost}
use yonwork_benchmark.Assertions.Content.{check_content}
use yonwork_benchmark.Assertions.Logs.{check_logs}
use yonwork_benchmark.Assertions.Completion.{Failure, check_completion}
use yonwork_benchmark.Models.Cases.{default_expectations}
use yonwork_benchmark.Assertions.Artifacts.{
  tool_calls_check_fail, answer_text, check_artifacts, tool_calls_check,
}
use yonwork_benchmark.Models.Records.{ChatTurn}
use yonwork_benchmark.Assertions.Evaluate.{verdicts, Evidence, evaluate}
use yonwork_benchmark.Prelude.{
  ◌≢◌, ◌<◌, eq_iff, length, elem, arith, Option, casefold, ◌↔◌, strip, ℕ, none, some, false, refl,
  ◌≡◌,
}
use yonwork_benchmark.Tests.Data.{fold, reader, turn}

abbrev evidence : Evidence
evidence = record {
  turn = some turn;
  expectations = default_expectations;
  usage = none;
  log_stats = none;
  failure = none;
}

clean_round_passes : (evaluate fold reader evidence).verdict ≡ Verdict.pass
unfolding evaluate check_completion check_artifacts check_logs check_content check_cost verdicts
    worst strip casefold elem answer_text
clean_round_passes = refl

evaluate_pass_example :
    ((evaluate fold reader evidence).verdict ≡ Verdict.pass)
    ↔ ((t : ChatTurn) × IsAcceptable fold reader evidence t)
evaluate_pass_example = evaluate_pass fold reader evidence

abbrev stray : ChatTurn
stray = record turn { run_id = some "other" }

evaluate_misattributed_example :
    (evaluate fold reader (record evidence { turn = some stray })).verdict ≡ Verdict.invalid
evaluate_misattributed_example =
    evaluate_misattributed fold reader (record evidence { turn = some stray }) stray refl
      (ground (arith, eq_iff "other" "bench-hello-r1-1a"))

evaluate_lost_example :
    (evaluate fold reader (record {
      turn = none;
      expectations = default_expectations;
      usage = none;
      log_stats = some nothing_counted;
      failure = some Failure.chat_timeout;
    })).verdict
    ≡ Verdict.timeout
evaluate_lost_example = evaluate_lost fold reader default_expectations Failure.chat_timeout

tool_calls_check_fail_example : ((tool_calls_check turn (some 1)).verdict ≡ some Verdict.fail) ↔ (
    (n : ℕ) × (◌≡◌ {A = Option ℕ} (some 1) (some n))
    × (length turn.tool_calls < n)
    × (turn.tool_calls_status ≡ "observed")
    × (turn.tools_enabled ≢ some false))
tool_calls_check_fail_example = tool_calls_check_fail turn (some 1)
