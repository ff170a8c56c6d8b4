-- ===== src/Assertions/Logs.antt =====
-- runner/assertions/logs.py: the counts of model calls and of failed ones.
use yonwork_benchmark.Prelude.{
  All, Given, ◌≡◌, ◌↔◌, ◌<◌, arith, ℕ, Option, none, some, List, [], ◌∷◌, ◌==◌, ltb, if◌then◌else◌,
}
use yonwork_benchmark.Models.Severity.{Verdict}
use yonwork_benchmark.Models.Records.{IsClean, Layer, LogStats, Check, skipped, judged}

api_calls_check : Option ℕ → Check
api_calls_check none = skipped Layer.log "api-calls"
api_calls_check (some n) =
    judged Layer.log "api-calls" (if n == 0 then Verdict.invalid else Verdict.pass)

error_calls_check : Option ℕ → Check
error_calls_check none = skipped Layer.log "error-calls"
error_calls_check (some n) =
    judged Layer.log "error-calls" (if ltb 0 n then Verdict.fail else Verdict.pass)

unfoldable pub check_logs : Option LogStats → List Check
unfolding api_calls_check error_calls_check
check_logs none = skipped Layer.log "api-calls" ∷ []
check_logs (some stats) = api_calls_check stats.api_calls ∷ error_calls_check stats.error_calls ∷ []

-- The counts, where they were collected, show a call and no error.
abbrev pub IsCalled : LogStats → Type 0
IsCalled stats = Given (λ n. 0 < n) stats.api_calls × Given (λ n. n ≡ 0) stats.error_calls

pub check_logs-IsClean :
    (stats : Option LogStats) → All IsClean (check_logs stats) ↔ Given IsCalled stats
unfolding check_logs
check_logs-IsClean none = ground arith
check_logs-IsClean (some stats) = ground arith
