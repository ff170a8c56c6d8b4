-- ===== src/Batch/Loop.antt =====
-- `run_batch` and `exit_code_for` of runner/batch.py.
pub mod Laws
use yonwork_benchmark.Batch.Round.{run_one}
use yonwork_benchmark.Models.Cases.{TaskItem}
use yonwork_benchmark.Assertions.Content.{JsonReader}
use yonwork_benchmark.Models.Severity.{worst_pass, worst, Verdict, exit_code}
use yonwork_benchmark.Batch.Interfaces.{BatchOptions, Collector, Driver, Clock, RunRecord}
use Prim.Native.Char.{Char}
use yonwork_benchmark.Prelude.{
  ◌++◌, true, false, none, some, some, Bool, refl, arith, ◌≢◌, All, ◌↔◌, Option, String, ℕ, List,
  [], ◌∷◌, ◌≡◌,
}

-- What a batch leaves: its records if no exception escaped, the world, and the lines of the
-- results file.
pub record BatchResult (W : Type 0) : Type 0 where
  pub records : Option (List RunRecord)
  pub world : W
  pub lines : List RunRecord

module _ {W : Type 0} (fold : Char → String) (reader : JsonReader) (clock : Clock W)
    (driver : Driver W) (collector : Option (Collector W)) (options : BatchOptions)
    (should_stop : W → Bool) (on_record : RunRecord → W → Option W) where
  -- `lines` is the results file so far, `records` what the loop has collected. A record is written
  -- before it is collected and reported; `on_record` answers `none` where it raises.
  unfoldable pub run_from : List TaskItem → List RunRecord → List RunRecord → W → BatchResult W
  run_from [] records lines w = record { records = some records; world = w; lines = lines }
  run_from (item ∷ items) records lines w = elim (should_stop w) [
    | true ↦ record { records = some records; world = w; lines = lines }
    | false ↦
        let (r, w') = run_one fold reader clock driver collector item options w in
        elim r [
          | none ↦ record { records = none; world = w'; lines = lines }
          | some r ↦ elim (on_record r w') [
            | none ↦ record { records = none; world = w'; lines = lines ++ r ∷ [] }
            | some w'' ↦ run_from items (records ++ r ∷ []) (lines ++ r ∷ []) w''
          ]
        ]
  ]

  unfoldable pub run_batch : List TaskItem → List RunRecord → W → BatchResult W
  unfolding run_from
  run_batch items lines w = run_from items [] lines w

verdicts_of : List RunRecord → List Verdict
verdicts_of [] = []
verdicts_of (r ∷ rs) = r.verdict ∷ verdicts_of rs

unfoldable pub exit_code_for : List RunRecord → ℕ
unfolding verdicts_of
exit_code_for [] = exit_code Verdict.invalid
exit_code_for (r ∷ rs) = exit_code (worst (verdicts_of (r ∷ rs)))

exit_code_zero : (v : Verdict) → (exit_code v ≡ 0) ↔ (v ≡ Verdict.pass)
unfolding exit_code
exit_code_zero v = ground arith

All-verdicts_of :
    (rs : List RunRecord)
    → All (λ v. v ≡ Verdict.pass) (verdicts_of rs) ↔ All (λ r. r.verdict ≡ Verdict.pass) rs
unfolding verdicts_of
All-verdicts_of [] = (λ h. tt, λ h. tt)
All-verdicts_of (r ∷ rs) = ground (arith, All-verdicts_of rs)

-- The exit code is 0 exactly if at least one round ran and all rounds passed.
pub exit_code_for_zero :
    (rs : List RunRecord)
    → (exit_code_for rs ≡ 0) ↔ ((rs ≢ []) × All (λ r. r.verdict ≡ Verdict.pass) rs)
unfolding exit_code_for
exit_code_for_zero [] = (λ h. absurd (unfold exit_code in omega arith), λ h. absurd (h.0 refl))
exit_code_for_zero (r ∷ rs) =
    let z = exit_code_zero (worst (verdicts_of (r ∷ rs))) in
    let p = worst_pass (verdicts_of (r ∷ rs)) in
    let a = All-verdicts_of (r ∷ rs) in
    (λ h. (λ e. cc, a.0 (p.0 (z.0 h))), λ h. z.1 (p.1 (a.1 h.1)))
