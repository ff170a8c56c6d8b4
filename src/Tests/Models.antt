-- ===== src/Tests/Models.antt =====
-- Verdicts, cases and ids.
use yonwork_benchmark.Tests.Data.{skipped_case, hello}
use yonwork_benchmark.Models.Ids.{benchmark_id_for}
use yonwork_benchmark.Models.Cases.{round_of-expand_cases, rounds, round_of, expand_cases}
use yonwork_benchmark.Models.Severity.{worst-gravest, gravest, Verdict, worst}
use yonwork_benchmark.Prelude.{map, [], ◌∷◌, refl, ◌≡◌}

worst-gravest_example :
    worst (Verdict.fail ∷ Verdict.error ∷ []) ≡ gravest (Verdict.fail ∷ Verdict.error ∷ [])
worst-gravest_example = worst-gravest (Verdict.fail ∷ Verdict.error ∷ [])

error_beats_fail : worst (Verdict.fail ∷ Verdict.error ∷ Verdict.pass ∷ []) ≡ Verdict.error
unfolding worst
error_beats_fail = refl

round_of-expand_cases_example :
    map round_of (expand_cases (hello ∷ skipped_case ∷ hello ∷ []))
    ≡ rounds (hello ∷ skipped_case ∷ hello ∷ [])
round_of-expand_cases_example = round_of-expand_cases (hello ∷ skipped_case ∷ hello ∷ [])

id_text : benchmark_id_for "web 7" "你好 case!" 12 "18f" ≡ "web-7-case-r12-18f"
unfolding benchmark_id_for
id_text = refl
