-- ===== src/Assertions/Verdicts.antt =====
-- Which verdict a round gets when it is not clean.
use yonwork_benchmark.Models.Cases.{Expectations}
use yonwork_benchmark.Assertions.Cost.{check_cost}
use yonwork_benchmark.Assertions.Logs.{check_logs}
use yonwork_benchmark.Assertions.Artifacts.{check_artifacts_misattributed, check_artifacts}
use yonwork_benchmark.Assertions.Completion.{is_timeout, Failure, check_completion}
use yonwork_benchmark.Models.Records.{ChatTurn, Check, LogStats}
use yonwork_benchmark.Assertions.Content.{check_content, JsonReader}
use yonwork_benchmark.Models.Severity.{worst, worst_invalid, Verdict}
use Prim.Native.Char.{Char}
use yonwork_benchmark.Assertions.Evaluate.{all_checks, Evidence, evaluate, verdicts}
use yonwork_benchmark.Prelude.{
  List, [], ◌∷◌, none, some, if◌then◌else◌, Any-append_left, strip, Option-cases, Any-append_right,
  inr, inl, ◌∷◌, ◌≢◌, some, Any, none, List, String, ◌≡◌, refl,
}

Any-verdicts :
    (v : Verdict) (cs : List Check)
    → Any (λ c. c.verdict ≡ some v) cs
    → Any (λ u. u ≡ v) (verdicts cs)
unfolding verdicts
Any-verdicts v [] h = absurd h
Any-verdicts v (c ∷ cs) (inl e) = rw e (inl refl)
Any-verdicts v (c ∷ cs) (inr h) = elim (Option-cases c.verdict) [
  | inl e ↦ rw e (Any-verdicts v cs h)
  | inr (u, e) ↦ rw e (inr (Any-verdicts v cs h))
]

abbrev pub nothing_counted : LogStats
nothing_counted = record { api_calls = none; error_calls = none; source = "unavailable" }

module _ (fold : Char → String) (reader : JsonReader) where
  -- A round that left a turn whose server run id is missing or is not the benchmark id is Invalid,
  -- whatever the other layers say and whether or not an exception ended it.
  pub evaluate_misattributed :
      (ev : Evidence) (turn : ChatTurn)
      → ev.turn ≡ some turn
      → turn.run_id ≢ some turn.benchmark_id
      → (evaluate fold reader ev).verdict ≡ Verdict.invalid
  unfolding evaluate
  evaluate_misattributed ev turn e h = worst_invalid (verdicts (all_checks fold reader ev)) (
      Any-verdicts Verdict.invalid (all_checks fold reader ev) (
        unfold all_checks in
        Any-append_right _ (check_completion fold ev.turn ev.failure) _ (
          Any-append_left _ (check_artifacts ev.turn ev.expectations) _
            (simp e (check_artifacts_misattributed turn ev.expectations h)))))

  -- A round of which an exception left nothing is a Timeout after a client timeout, and an Error
  -- of our own after any other exception: it is never counted as a failure of the product.
  pub evaluate_lost :
      (e : Expectations) (failure : Failure)
      → (evaluate fold reader (record {
        turn = none;
        expectations = e;
        usage = none;
        log_stats = some nothing_counted;
        failure = some failure;
      })).verdict
        ≡ (if is_timeout failure then Verdict.timeout else Verdict.error)
  unfolding evaluate check_completion check_artifacts check_logs check_content check_cost verdicts
      worst strip
  evaluate_lost e Failure.chat_timeout = refl
  evaluate_lost e Failure.chat_error = refl
  evaluate_lost e Failure.transport_error = refl
  evaluate_lost e Failure.unexpected = refl
