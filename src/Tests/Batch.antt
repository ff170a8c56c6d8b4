-- ===== src/Tests/Batch.antt =====
-- A batch whose driver fails in its first round.
use yonwork_benchmark.Batch.Round.Laws.{
  run_one_reproducible, FollowsFrom, item_key, item_of, run_one_closes,
}
use yonwork_benchmark.Assertions.Completion.{Failure}
use yonwork_benchmark.Batch.Loop.Laws.{run_batch_total, run_batch-Covers, Covers}
use yonwork_benchmark.Batch.Loop.{run_batch}
use yonwork_benchmark.Batch.Round.{is_interrupted, run_one, register_run, round_id}
use yonwork_benchmark.Batch.Round.Total.{run_one_total, IsTame}
use yonwork_benchmark.Models.Cases.{expand_cases, default_expectations, TaskItem}
use yonwork_benchmark.Batch.Interfaces.{
  Enrichment, Outcome, Driver, Collector, Clock, BatchOptions, RunRecord,
}
use mathlib.Core.Option.{Option, some-injective}
use yonwork_benchmark.Prelude.{
  map, ◌∙◌, ap, zero, suc, Bool, List, ℕ, String, [], ◌∷◌, none, some, true, false, refl, ◌≡◌,
}
use yonwork_benchmark.Tests.Data.{fold, reader, turn, hello}

-- The world counts the rounds and remembers the run that is open.
abbrev World : Type 0
World = ℕ × Option String

abbrev play : String → ℕ → Outcome
play id zero = Outcome.raised Failure.chat_error none
play id (suc n) = Outcome.returned (record turn { benchmark_id = id; run_id = some id })

abbrev flaky : Driver World
flaky = record {
  product = "yonwork";
  session_key = λ id. id;
  run_turn = λ id p w. (play id w.0, (suc w.0, w.1));
  collect_usage = λ t w. (some (record { samples = []; notes = [] }), w);
  enrich = λ t w. (Enrichment.enriched t, w);
}

abbrev ledger : Collector World
ledger = record {
  register = λ id product w. some (w.0, some id);
  close_run = λ id w. (w.0, none);
  records_for = λ id w. [];
  ledger_path = λ w. "model-requests.jsonl";
}

abbrev clock : Clock World
clock = record { stamp = λ w. "1a"; now_iso = λ w. "10:00" }

abbrev options : BatchOptions
options = record { batch_id = "b"; id_prefix = "bench"; collect_usage = true }

abbrev going : World → Bool
going w = false

abbrev noted : RunRecord → World → Option World
noted r w = some w

abbrev item : TaskItem
item = record {
  position = 0;
  case_name = "hello";
  run_no = 1;
  prompt = "hello";
  expectations = default_expectations;
}

tame : IsTame flaky (some ledger)
tame = record {
  runs = λ id p w. calm id w.0;
  collects = λ t w e. cc (e);
  enriches = λ t w e. cc (e);
  registers = λ c same id w e. absurd (refused c same id w e);
}
  where
    calm : (id : String) (n : ℕ) → is_interrupted (play id n) ≡ false
    calm id zero = refl
    calm id (suc n) = refl

    refused :
        (c : Collector World)
        → ◌≡◌ {A = Option (Collector World)} (some ledger) (some c)
        → (id : String) (w : World) → c.register id "yonwork" w ≡ none
        → ⊥
    refused c same id w e =
        let s : ledger ≡ c = some-injective _ _ same in
        cc (ap (λ (d : Collector World). d.register id "yonwork" w) s ∙ e)

run_batch_total_example :
    (rs : List RunRecord) × ((run_batch fold reader clock flaky
        (some ledger)
        options
        going
        noted
        (expand_cases (hello ∷ []))
        []
        (0, none)).records
      ≡ some rs)
    × (map item_of rs ≡ map item_key (expand_cases (hello ∷ [])))
run_batch_total_example =
    run_batch_total fold reader clock flaky (some ledger) options going noted tame (λ w. refl)
      (λ r w e. cc (e)) (expand_cases (hello ∷ [])) [] (0, none)

run_batch-Covers_example :
    (rs : List RunRecord) × Covers fold reader clock flaky
      (some ledger)
      options
      going
      noted
      (expand_cases (hello ∷ []))
      []
      []
      (run_batch fold reader clock flaky
        (some ledger)
        options
        going
        noted
        (expand_cases (hello ∷ []))
        []
        (0, none))
      rs
run_batch-Covers_example =
    run_batch-Covers fold reader clock flaky (some ledger) options going noted
      (expand_cases (hello ∷ [])) [] (0, none)

-- The first round, in which the driver raises.
made :
    (r : RunRecord) × ((run_one fold reader clock flaky (some ledger) item options (0, none)).0
      ≡ some r)
made = run_one_total fold reader clock flaky (some ledger) options tame item (0, none)

registers :
    register_run fold reader clock flaky
      (some ledger)
      (round_id fold reader clock flaky (some ledger) item options (0, none))
      (0, none)
    ≡ some (0, some (round_id fold reader clock flaky (some ledger) item options (0, none)))
unfolding register_run
registers = refl

run_one_reproducible_example :
    FollowsFrom fold reader clock flaky (some ledger) options item (some Failure.chat_error) made.0
run_one_reproducible_example =
    run_one_reproducible fold reader clock flaky (some ledger) options item (0, none)
      (0, some (round_id fold reader clock flaky (some ledger) item options (0, none))) registers
      made.1

run_one_closes_example :
    (run_one fold reader clock flaky (some ledger) item options (0, none)).1.1 ≡ none
run_one_closes_example =
    run_one_closes fold reader clock flaky (some ledger) options (λ w. w.1 ≡ none) (λ t w h. h)
      (λ t w h. h) ledger item (0, none) (0, some _) refl (λ v. refl) refl
