-- ===== src/Assertions/Artifacts.antt =====
-- runner/assertions/artifacts.py: can what the round left behind be attributed to it?
use yonwork_benchmark.Prelude.{
  inl, Any, refl, ◌≢◌, ◌<◌, ◌≡◌, All, Given, ◌↔◌, ◌≤◌, arith, eq_iff, ℕ, String, Bool, false,
  Option, none, some, List, [], ◌∷◌, not, leb, str_eq, strip, is_blank, length, or_else,
  if◌then◌else◌,
}
use yonwork_benchmark.Models.Severity.{Verdict}
use yonwork_benchmark.Models.Cases.{Expectations}
use yonwork_benchmark.Models.Records.{IsClean, Layer, ChatTurn, Check, skipped, judged}

-- An empty run id counts as none (`not turn.run_id`).
run_id_check : Option String → String → Check
run_id_check none benchmark_id = judged Layer.artifact "run-id" Verdict.invalid
run_id_check (some run_id) benchmark_id =
    if is_blank run_id
    then judged Layer.artifact "run-id" Verdict.invalid
    else if not (str_eq run_id benchmark_id)
    then judged Layer.artifact "run-id" Verdict.invalid
    else judged Layer.artifact "run-id" Verdict.pass

-- `(turn.answer or "").strip()`
unfoldable pub answer_text : ChatTurn → String
answer_text turn = strip (or_else turn.answer "")

answer_check : ChatTurn → Check
answer_check turn =
    if is_blank (answer_text turn)
    then judged Layer.artifact "answer-present" Verdict.fail
    else judged Layer.artifact "answer-present" Verdict.pass

-- `turn.tools_enabled is False`
abbrev pub is_off : Option Bool → Bool
is_off none = false
is_off (some enabled) = not enabled

tool_verdict : ChatTurn → ℕ → Verdict
tool_verdict turn wanted =
    if leb wanted (length turn.tool_calls)
    then Verdict.pass
    else if is_off turn.tools_enabled
    then Verdict.invalid
    else if not (str_eq turn.tool_calls_status "observed")
    then (if str_eq turn.tool_calls_status "error" then Verdict.error else Verdict.invalid)
    else Verdict.fail

pub tool_calls_check : ChatTurn → Option ℕ → Check
unfolding tool_verdict
tool_calls_check turn none =
    if not (str_eq turn.tool_calls_status "observed")
    then skipped Layer.artifact "tool-calls"
    else judged Layer.artifact "tool-calls" Verdict.pass
tool_calls_check turn (some wanted) = judged Layer.artifact "tool-calls" (tool_verdict turn wanted)

unfoldable pub check_artifacts : Option ChatTurn → Expectations → List Check
unfolding run_id_check answer_check tool_calls_check
check_artifacts none expectations = skipped Layer.artifact "run-id" ∷ []
check_artifacts (some turn) expectations =
    run_id_check turn.run_id turn.benchmark_id
    ∷ answer_check turn
    ∷ tool_calls_check turn expectations.min_tool_calls
    ∷ []

run_id_check-IsClean :
    (r : Option String) (b : String)
    → IsClean (run_id_check r b) ↔ ((r ≡ some b) × (is_blank b ≡ false))
unfolding run_id_check
run_id_check-IsClean none b = ground arith
run_id_check-IsClean (some r) b = ground (arith, eq_iff r b)

answer_check-IsClean :
    (turn : ChatTurn) → IsClean (answer_check turn) ↔ (is_blank (answer_text turn) ≡ false)
unfolding answer_check
answer_check-IsClean turn = ground arith

tool_calls_check-IsClean :
    (turn : ChatTurn) (wanted : Option ℕ)
    → IsClean (tool_calls_check turn wanted) ↔ Given (λ n. n ≤ length turn.tool_calls) wanted
unfolding tool_calls_check
tool_calls_check-IsClean turn none = ground arith
tool_calls_check-IsClean turn (some n) = ground arith

-- What makes a round attributable and answered, said without the checks.
abbrev pub IsAttributed : ChatTurn → Expectations → Type 0
IsAttributed turn e =
    (turn.run_id ≡ some turn.benchmark_id)
    × (is_blank turn.benchmark_id ≡ false)
    × (is_blank (answer_text turn) ≡ false)
    × Given (λ wanted. wanted ≤ length turn.tool_calls) e.min_tool_calls

pub check_artifacts-IsClean :
    (turn : ChatTurn) (e : Expectations)
    → All IsClean (check_artifacts (some turn) e) ↔ IsAttributed turn e
unfolding check_artifacts
check_artifacts-IsClean turn e =
    let r = run_id_check-IsClean turn.run_id turn.benchmark_id in
    let a = answer_check-IsClean turn in
    let t = tool_calls_check-IsClean turn e.min_tool_calls in
    (
      λ h. ((r.0 h.0).0, (r.0 h.0).1, a.0 h.1.0, t.0 h.1.1.0),
      λ k. (r.1 (k.0, k.1), (a.1 k.2, (t.1 k.3, tt))),
    )

misattributed :
    (r : Option String) (b : String)
    → r ≢ some b
    → (run_id_check r b).verdict ≡ some Verdict.invalid
unfolding run_id_check
misattributed none b h = refl
misattributed (some r) b h = ground (arith, eq_iff r b)

pub check_artifacts_misattributed :
    (turn : ChatTurn) (e : Expectations)
    → turn.run_id ≢ some turn.benchmark_id
    → Any (λ c. c.verdict ≡ some Verdict.invalid) (check_artifacts (some turn) e)
unfolding check_artifacts
check_artifacts_misattributed turn e h = inl (misattributed turn.run_id turn.benchmark_id h)

-- The tool check blames the product exactly when calls were required, were fully observed to be too
-- few, and the batch had not switched the tools off.
pub tool_calls_check_fail :
    (turn : ChatTurn) (wanted : Option ℕ)
    → ((tool_calls_check turn wanted).verdict ≡ some Verdict.fail) ↔ (
        (n : ℕ) × (wanted ≡ some n)
        × (length turn.tool_calls < n)
        × (turn.tool_calls_status ≡ "observed")
        × (turn.tools_enabled ≢ some false))
unfolding tool_calls_check
tool_calls_check_fail turn none = (λ h. absurd (ground arith), λ h. absurd (cc (h.1)))
tool_calls_check_fail turn (some n) =
    let s = eq_iff turn.tool_calls_status "observed" in
    (
      λ h. (n, ground (arith, s), ground (arith, s), ground (arith, s), ground (arith, s)),
      λ h. ground (arith, s),
    )
