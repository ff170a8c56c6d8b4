-- ===== src/Batch/Round/Laws.antt =====
-- What `run_one` guarantees of the record that it makes and of the run that it registers.
use yonwork_benchmark.Assertions.Evaluate.{Evidence}
use yonwork_benchmark.Batch.Interfaces.{UsageCollection, usage_of}
use Prim.Native.Char.{Char}
use mathlib.Core.Option.{some-injective}
use mathlib.Core.Path.{subst}
use yonwork_benchmark.Models.Records.{usage_by}
use yonwork_benchmark.Prelude.{
  inr, inl, Bool-cases, arith, ℕ, String, List, [], ◌∷◌, ◌≡◌, refl, some, none,
}
use yonwork_benchmark.Batch.Round.{
  UsageSample, usage_sources, evaluate, Failure, Outcome, ChatTurn, BatchOptions, Collector, Option,
  Driver, Clock, usage_by, RunRecord, TaskItem, JsonReader, pick_usage, judge, finish_round,
  with_usage, after_turn, registered, register_run, close_run, collect, enrich, round_id, run_one,
  turn_of, failure_of,
}

-- The loop over the sources picks the sample that the record's `usage` property picks.
pick_usage-usage_by :
    (sources : List String) (samples : List UsageSample)
    → pick_usage sources samples none ≡ usage_by sources samples
unfolding pick_usage usage_by
pick_usage-usage_by [] samples = refl
pick_usage-usage_by (source ∷ sources) samples = ground (arith, pick_usage-usage_by sources samples)

-- The item that a record is about.
abbrev pub item_of : RunRecord → ℕ × String × ℕ × String
item_of r = (r.position, r.case_name, r.run_no, r.prompt)

abbrev pub item_key : TaskItem → ℕ × String × ℕ × String
item_key i = (i.position, i.case_name, i.run_no, i.prompt)

-- The exception that a turn of the driver raised, if the batch goes on after it.
abbrev pub thrown : Outcome → Option Failure
thrown (Outcome.returned turn) = none
thrown (Outcome.raised failure partial) = some failure
thrown Outcome.interrupted = none

failure_of-thrown : (outcome : Outcome) → failure_of outcome ≡ thrown outcome
failure_of-thrown (Outcome.returned turn) = refl
failure_of-thrown (Outcome.raised failure partial) = refl
failure_of-thrown Outcome.interrupted = refl

module _ {W : Type 0} (fold : Char → String) (reader : JsonReader) (clock : Clock W)
    (driver : Driver W) (collector : Option (Collector W)) (options : BatchOptions) where
  pub run_one-item_of :
      (item : TaskItem) (w : W) {r : RunRecord}
      → (run_one fold reader clock driver collector item options w).0 ≡ some r
      → item_of r ≡ item_key item
  unfolding run_one
  run_one-item_of item w h = ground arith

  -- The evidence that a record holds, with the failure of its round.
  abbrev pub evidence_of : TaskItem → Option Failure → RunRecord → Evidence
  evidence_of item failure r = record {
    turn = r.turn;
    expectations = item.expectations;
    usage = usage_of r;
    log_stats = some r.log_stats;
    failure = failure;
  }

  abbrev pub FollowsFrom : TaskItem → Option Failure → RunRecord → Type 0
  FollowsFrom item failure r =
      (r.verdict ≡ (evaluate fold reader (evidence_of item failure r)).verdict)
      × (r.checks ≡ (evaluate fold reader (evidence_of item failure r)).checks)

  judge-FollowsFrom :
      (item : TaskItem) (id : String) (failure : Option Failure) (turn : Option ChatTurn)
      (u : UsageCollection) (w : W)
      → FollowsFrom item failure
          (judge fold reader clock driver collector item options id failure turn u w)
  unfolding judge usage_of
  judge-FollowsFrom item id failure turn u w =
      rw (← pick_usage-usage_by usage_sources u.samples) (refl, refl)

  finish_round-FollowsFrom :
      (item : TaskItem) (id : String) (outcome : Outcome) (u : UsageCollection)
      (t : Option (Option ChatTurn)) (w : W) {r : RunRecord}
      → (finish_round fold reader clock driver collector item options id outcome u t w).0 ≡ some r
      → FollowsFrom item (failure_of outcome) r
  unfolding finish_round
  finish_round-FollowsFrom item id outcome u none w h = absurd (ground arith)
  finish_round-FollowsFrom item id outcome u (some t) w h =
      subst (FollowsFrom item (failure_of outcome)) (some-injective _ _ h)
        (judge-FollowsFrom item id (failure_of outcome) t u w)

  with_usage-FollowsFrom :
      (item : TaskItem) (id : String) (outcome : Outcome) (u : Option UsageCollection) (w : W)
      {r : RunRecord}
      → (with_usage fold reader clock driver collector item options id outcome u w).0 ≡ some r
      → FollowsFrom item (failure_of outcome) r
  unfolding with_usage
  with_usage-FollowsFrom item id outcome none w h = absurd (ground arith)
  with_usage-FollowsFrom item id outcome (some u) w h =
      let (t, w') = enrich fold reader clock driver collector (turn_of outcome) w in
      finish_round-FollowsFrom item id outcome u t w' h

  after_turn-FollowsFrom :
      (item : TaskItem) (id : String) (outcome : Outcome) (w : W) {r : RunRecord}
      → (after_turn fold reader clock driver collector item options id outcome w).0 ≡ some r
      → FollowsFrom item (failure_of outcome) r
  unfolding after_turn
  after_turn-FollowsFrom item id Outcome.interrupted w h = absurd (ground arith)
  after_turn-FollowsFrom item id (Outcome.returned t) w h =
      let (u, w') = collect fold reader clock driver collector options (some t) w in
      with_usage-FollowsFrom item id (Outcome.returned t) u w' h
  after_turn-FollowsFrom item id (Outcome.raised f t) w h =
      let (u, w') = collect fold reader clock driver collector options t w in
      with_usage-FollowsFrom item id (Outcome.raised f t) u w' h

  -- The verdict and the checks of a record that run_one makes are those of evaluate on the turn, the
  -- usage and the counts that the record itself holds, the expectations of the item, and the
  -- exception that the driver's turn of this round raised, or none if it raised none.
  pub run_one_reproducible :
      (item : TaskItem) (w w₁ : W) {r : RunRecord}
      → register_run fold reader clock driver collector
          (round_id fold reader clock driver collector item options w)
          w
        ≡ some w₁
      → (run_one fold reader clock driver collector item options w).0 ≡ some r
      → FollowsFrom item
          (thrown
            (driver.run_turn
              (round_id fold reader clock driver collector item options w)
              item.prompt
              w₁).0)
          r
  unfolding run_one registered
  run_one_reproducible item w w₁ {r} e h =
      let id = round_id fold reader clock driver collector item options w in
      let s = driver.run_turn id item.prompt w₁ in
      subst (λ f. FollowsFrom item f r) (failure_of-thrown s.0)
        (after_turn-FollowsFrom item id s.0 (close_run fold reader clock driver collector id s.1)
          (rw e at h))

  -- The world after the collector has closed the run, if there is a collector.
  module _ (Closed : W → Type 0)
      (collect_keeps : (t : ChatTurn) (w : W) → Closed w → Closed (driver.collect_usage t w).1)
      (enrich_keeps : (t : ChatTurn) (w : W) → Closed w → Closed (driver.enrich t w).1) where
    collect-Closed :
        (turn : Option ChatTurn) (w : W)
        → Closed w
        → Closed (collect fold reader clock driver collector options turn w).1
    unfolding collect
    collect-Closed none w h = h
    collect-Closed (some t) w h = elim (Bool-cases options.collect_usage) [
      | inl e ↦ simp e (collect_keeps t w h)
      | inr e ↦ simp e h
    ]

    enrich-Closed :
        (turn : Option ChatTurn) (w : W)
        → Closed w
        → Closed (enrich fold reader clock driver collector turn w).1
    unfolding enrich
    enrich-Closed none w h = h
    enrich-Closed (some t) w h = enrich_keeps t w h

    finish_round-Closed :
        (item : TaskItem) (id : String) (outcome : Outcome) (u : UsageCollection)
        (t : Option (Option ChatTurn)) (w : W)
        → Closed w
        → Closed (finish_round fold reader clock driver collector item options id outcome u t w).1
    unfolding finish_round
    finish_round-Closed item id outcome u none w h = h
    finish_round-Closed item id outcome u (some t) w h = h

    with_usage-Closed :
        (item : TaskItem) (id : String) (outcome : Outcome) (u : Option UsageCollection) (w : W)
        → Closed w
        → Closed (with_usage fold reader clock driver collector item options id outcome u w).1
    unfolding with_usage
    with_usage-Closed item id outcome none w h = h
    with_usage-Closed item id outcome (some u) w h =
        let s = enrich fold reader clock driver collector (turn_of outcome) w in
        finish_round-Closed item id outcome u s.0 s.1 (enrich-Closed (turn_of outcome) w h)

    after_turn-Closed :
        (item : TaskItem) (id : String) (outcome : Outcome) (w : W)
        → Closed w
        → Closed (after_turn fold reader clock driver collector item options id outcome w).1
    unfolding after_turn
    after_turn-Closed item id Outcome.interrupted w h = h
    after_turn-Closed item id (Outcome.returned t) w h =
        let s = collect fold reader clock driver collector options (some t) w in
        with_usage-Closed item id (Outcome.returned t) s.0 s.1 (collect-Closed (some t) w h)
    after_turn-Closed item id (Outcome.raised f t) w h =
        let s = collect fold reader clock driver collector options t w in
        with_usage-Closed item id (Outcome.raised f t) s.0 s.1 (collect-Closed t w h)

    register_run-some :
        (c : Collector W) (id : String) (w w₁ : W)
        → collector ≡ some c
        → c.register id driver.product w ≡ some w₁
        → register_run fold reader clock driver collector id w ≡ some w₁
    unfolding register_run
    register_run-some c id w w₁ e h = rw e h

    close_run-some :
        (c : Collector W) (id : String) (w : W)
        → collector ≡ some c
        → close_run fold reader clock driver collector id w ≡ c.close_run id w
    unfolding close_run
    close_run-some c id w e = rw e

    -- Whatever happens in a registered round, an interrupt and the errors that `run_one` does not
    -- catch included, the collector has closed the run by the time `run_one` is left: a property
    -- that closing establishes, and that the two later driver steps keep, holds then.
    pub run_one_closes :
        (c : Collector W) (item : TaskItem) (w w₁ : W)
        → collector ≡ some c
        → ((v : W)
            → Closed (c.close_run (round_id fold reader clock driver collector item options w) v))
        → c.register (round_id fold reader clock driver collector item options w) driver.product w
          ≡ some w₁
        → Closed (run_one fold reader clock driver collector item options w).1
    unfolding run_one
    run_one_closes c item w w₁ e closes h =
        let id = round_id fold reader clock driver collector item options w in
        let s = driver.run_turn id item.prompt w₁ in
        rw (register_run-some c id w w₁ e h) (
          unfold registered in
          after_turn-Closed item id s.0 (close_run fold reader clock driver collector id s.1)
            (rw (close_run-some c id s.1 e) (closes s.1)))
