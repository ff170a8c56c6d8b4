-- ===== src/Assertions/Evaluate.antt =====
-- `Evaluation` and `evaluate` of runner/assertions/base.py: all five layers run, and the worst of
-- their verdicts is the round's.
use Prim.Native.Char.{Char}
use Prim.Native.String.{String}
use yonwork_benchmark.Prelude.{Bool, true, false, keep, Option, none, some, List, [], ◌∷◌, ◌++◌}
use yonwork_benchmark.Models.Severity.{Verdict, worst}
use yonwork_benchmark.Models.Cases.{Expectations}
use yonwork_benchmark.Models.Records.{ChatTurn, UsageSample, LogStats, Check}
use yonwork_benchmark.Assertions.Completion.{Failure, check_completion}
use yonwork_benchmark.Assertions.Artifacts.{check_artifacts}
use yonwork_benchmark.Assertions.Logs.{check_logs}
use yonwork_benchmark.Assertions.Content.{JsonReader, check_content}
use yonwork_benchmark.Assertions.Cost.{check_cost}

pub record Evaluation : Type 0 where
  pub verdict : Verdict
  pub checks : List Check

-- The verdicts of the executed checks.
unfoldable pub verdicts : List Check → List Verdict
verdicts [] = []
verdicts (check ∷ checks) = elim check.verdict [
  | some v ↦ v ∷ verdicts checks
  | none ↦ verdicts checks
]

-- The keyword arguments of `evaluate`.
pub record Evidence : Type 0 where
  pub turn : Option ChatTurn
  pub expectations : Expectations
  pub usage : Option UsageSample
  pub log_stats : Option LogStats
  pub failure : Option Failure

-- `Evaluation.failed`: the executed checks that did not pass.
is_failed : Check → Bool
is_failed check = elim check.verdict [
  | some Verdict.pass ↦ false
  | some other ↦ true
  | none ↦ false
]

unfoldable pub failed : Evaluation → List Check
unfolding is_failed
failed evaluation = keep is_failed evaluation.checks

module _ (fold : Char → String) (reader : JsonReader) where
  unfoldable pub all_checks : Evidence → List Check
  all_checks e =
      check_completion fold e.turn e.failure
      ++ (check_artifacts e.turn e.expectations
          ++ (check_logs e.log_stats
              ++ (check_content reader e.turn e.expectations
                  ++ check_cost fold e.turn e.usage e.expectations)))

  unfoldable pub evaluate : Evidence → Evaluation
  unfolding all_checks
  evaluate e = record { verdict = worst (verdicts (all_checks e)); checks = all_checks e }
