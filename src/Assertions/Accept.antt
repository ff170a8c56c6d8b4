-- ===== src/Assertions/Accept.antt =====
-- What a clean round is, said without the checks, and one lemma for each layer: the layer's checks
-- are all clean exactly for such a round.
use yonwork_benchmark.Assertions.Cost.{check_cost-IsClean, check_cost, IsAffordable}
use yonwork_benchmark.Assertions.Logs.{check_logs-IsClean, check_logs, IsCalled}
use yonwork_benchmark.Assertions.Artifacts.{
  check_artifacts-IsClean, check_artifacts, answer_text, IsAttributed,
}
use yonwork_benchmark.Assertions.Completion.{
  check_completion-IsClean, check_completion_empty, check_completion_unclean, check_completion,
  Failure, IsComplete,
}
use yonwork_benchmark.Models.Cases.{Expectations}
use yonwork_benchmark.Assertions.Content.{
  check_content-IsClean, check_content, IsContent, JsonReader,
}
use Prim.Native.Char.{Char}
use mathlib.Core.Option.{some-injective}
use yonwork_benchmark.Prelude.{
  refl, ◌++◌, All-append_iff, All-append_left, Given, Option, some, none, String, ◌≡◌, ◌↔◌, List,
  [], ◌∷◌, arith, All,
}
use yonwork_benchmark.Models.Severity.{worst_pass, Verdict}
use yonwork_benchmark.Models.Records.{LogStats, UsageSample, ChatTurn, Check, IsClean}
use yonwork_benchmark.Assertions.Evaluate.{Evidence, all_checks, evaluate, verdicts}

All-verdicts : (cs : List Check) → All (λ v. v ≡ Verdict.pass) (verdicts cs) ↔ All IsClean cs
unfolding verdicts
All-verdicts [] = (λ h. tt, λ h. tt)
All-verdicts (c ∷ cs) = ground (arith, All-verdicts cs)

-- A round that may pass, described without the checks: no exception ended it, it ran to its end, it
-- is attributed and answered, its counts show a call and no error, its answer is acceptable, and
-- so is its cost.
abbrev pub IsAcceptable : (Char → String) → JsonReader → Evidence → ChatTurn → Type 0
IsAcceptable fold reader ev turn =
    (ev.failure ≡ none)
    × (ev.turn ≡ some turn)
    × IsComplete fold turn
    × IsAttributed turn ev.expectations
    × Given IsCalled ev.log_stats
    × IsContent reader ev.expectations (answer_text turn)
    × IsAffordable fold turn ev.usage ev.expectations

module _ (fold : Char → String) (reader : JsonReader) where
  layers-IsClean :
      (turn : ChatTurn) (e : Expectations) (u : Option UsageSample) (s : Option LogStats)
      → All IsClean (
          all_checks fold reader (record {
            turn = some turn;
            expectations = e;
            usage = u;
            log_stats = s;
            failure = none;
          }))
        ↔ (IsComplete fold turn
            × IsAttributed turn e
            × Given IsCalled s
            × IsContent reader e (answer_text turn)
            × IsAffordable fold turn u e)
  unfolding all_checks
  layers-IsClean turn e u s =
      let c5 = check_cost fold (some turn) u e in
      let c4 = check_content reader (some turn) e in
      let c3 = check_logs s in
      let c2 = check_artifacts (some turn) e in
      let a =
        All-append_iff IsClean (check_completion fold (some turn) none)
          (c2 ++ (c3 ++ (c4 ++ c5))) in
      let b = All-append_iff IsClean c2 (c3 ++ (c4 ++ c5)) in
      let c = All-append_iff IsClean c3 (c4 ++ c5) in
      let d = All-append_iff IsClean c4 c5 in
      let f1 = check_completion-IsClean fold turn in
      let f2 = check_artifacts-IsClean turn e in
      let f3 = check_logs-IsClean s in
      let f5 = check_cost-IsClean fold turn u e in
      (
        λ k.
            let p = a.0 k in
            let q = b.0 p.1 in
            let r = c.0 q.1 in
            let t = d.0 r.1 in
            let own = f2.0 q.0 in
            (f1.0 p.0, own, f3.0 r.0, (check_content-IsClean reader turn e own.2).0 t.0, f5.0 t.1),
        λ k. a.1 (
          f1.1 k.0,
          b.1 (
            f2.1 k.1,
            c.1 (f3.1 k.2, d.1 ((check_content-IsClean reader turn e k.1.2).1 k.3, f5.1 k.4)),
          ),
        ),
      )

  IsClean-iff :
      (turn : Option ChatTurn) (failure : Option Failure) (e : Expectations)
      (u : Option UsageSample) (l : Option LogStats)
      → let ev : Evidence = record {
        turn = turn;
        expectations = e;
        usage = u;
        log_stats = l;
        failure = failure;
      } in
        All IsClean (all_checks fold reader ev) ↔ ((t : ChatTurn) × IsAcceptable fold reader ev t)
  unfolding all_checks
  IsClean-iff turn (some f) e u l = (
    λ k. absurd (check_completion_unclean fold turn f (All-append_left IsClean _ _ k)),
    λ k. absurd (cc (k.1.0)),
  )
  IsClean-iff none none e u l = (
    λ k. absurd (check_completion_empty fold (All-append_left IsClean _ _ k)),
    λ k. absurd (cc (k.1.1)),
  )
  IsClean-iff (some turn) none e u l = (
    λ k. let c = (layers-IsClean turn e u l).0 k in (turn, (refl, refl, c.0, c.1, c.2, c.3, c.4)),
    λ k.
        let same : turn ≡ k.0 = some-injective _ _ k.1.1 in
        rw same ((layers-IsClean k.0 e u l).1 (k.1.2, k.1.3, k.1.4, k.1.5, k.1.6)),
  )

  -- The verdict is Pass exactly for an acceptable round.
  pub evaluate_pass :
      (ev : Evidence)
      → ((evaluate fold reader ev).verdict ≡ Verdict.pass)
        ↔ ((turn : ChatTurn) × IsAcceptable fold reader ev turn)
  unfolding evaluate
  evaluate_pass ev =
      let cs = all_checks fold reader ev in
      let c = IsClean-iff ev.turn ev.failure ev.expectations ev.usage ev.log_stats in
      let w = worst_pass (verdicts cs) in
      let a = All-verdicts cs in (λ h. c.0 (a.0 (w.0 h)), λ k. w.1 (a.1 (c.1 k)))
