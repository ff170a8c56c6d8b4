-- ===== src/Batch/Round/Total.antt =====
-- Under which conditions `run_one` always makes a record.
use Prim.Native.Char.{Char}
use yonwork_benchmark.Prelude.{
  Bool-cases, inr, inl, Option-cases, String, ◌≡◌, ◌≢◌, refl, false, some, none,
}
use yonwork_benchmark.Batch.Round.{
  mark_enrich_failed, [], enriched_turn, Outcome, RunRecord, Enrichment, UsageCollection, TaskItem,
  ChatTurn, BatchOptions, Collector, Clock, Driver, Option, JsonReader, judge, finish_round,
  with_usage, after_turn, registered, register_run, close_run, collect, enrich, round_id, run_one,
  turn_of, failure_of, is_interrupted,
}

-- What `run_one` does not catch does not happen: an interrupt, an error of `collect_usage`, a driver
-- without `enrich`, a refused registration. Exceptions of `run_turn` are allowed.
pub record IsTame {W : Type 0} (driver : Driver W) (collector : Option (Collector W)) : Type 0 where
  pub runs : (id p : String) (w : W) → is_interrupted (driver.run_turn id p w).0 ≡ false
  pub collects : (t : ChatTurn) (w : W) → (driver.collect_usage t w).0 ≢ none
  pub enriches : (t : ChatTurn) (w : W) → (driver.enrich t w).0 ≢ Enrichment.missing_method
  pub registers :
      (c : Collector W)
      → collector ≡ some c
      → (id : String) (w : W) → c.register id driver.product w ≢ none

some_of {ℓ} : {A : Type ℓ} (o : Option A) → o ≢ none → (a : A) × (o ≡ some a)
some_of none h = absurd (h refl)
some_of (some a) h = (a, refl)

module _ {W : Type 0} (fold : Char → String) (reader : JsonReader) (clock : Clock W)
    (driver : Driver W) (collector : Option (Collector W)) (options : BatchOptions) where
  module _ (tame : IsTame driver collector) where
    collect_total :
        (t : Option ChatTurn) (w : W)
        → (u : UsageCollection) × ((collect fold reader clock driver collector options t w).0
            ≡ some u)
    unfolding collect
    collect_total none w = (record { samples = []; notes = [] }, refl)
    collect_total (some t) w = elim (Bool-cases options.collect_usage) [
      | inl e ↦
          let (u, p) = some_of (driver.collect_usage t w).0 (tame.collects t w) in (u, simp e p)
      | inr e ↦ (record { samples = []; notes = [] }, simp e)
    ]

    enrich_total :
        (t : Option ChatTurn) (w : W)
        → (t' : Option ChatTurn) × ((enrich fold reader clock driver collector t w).0 ≡ some t')
    unfolding enrich
    enrich_total none w = (none, refl)
    enrich_total (some t) w = from (driver.enrich t w).0 (tame.enriches t w)
      where
        from :
            (e : Enrichment)
            → e ≢ Enrichment.missing_method
            → (t' : Option ChatTurn) × ((elim (enriched_turn fold reader clock driver collector e
                  t) [ none ↦ none | some t ↦ some (some t) ])
                ≡ some t')
        from (Enrichment.enriched t') h = (some t', refl)
        from Enrichment.missing_method h = absurd (h refl)
        from Enrichment.failed h = (some (mark_enrich_failed t), refl)

    with_usage_total :
        (item : TaskItem) (id : String) (outcome : Outcome) (u : UsageCollection) (w : W)
        → (r : RunRecord) × ((with_usage fold reader clock driver collector item options id outcome
              (some u)
              w).0
            ≡ some r)
    unfolding with_usage finish_round
    with_usage_total item id outcome u w =
        let (t, e) = enrich_total (turn_of outcome) w in
        let w' = (enrich fold reader clock driver collector (turn_of outcome) w).1 in
        (judge fold reader clock driver collector item options id (failure_of outcome) t u w', rw e)

    after_turn_total :
        (item : TaskItem) (id : String) (outcome : Outcome) (w : W)
        → is_interrupted outcome ≡ false
        → (r : RunRecord) × ((after_turn fold reader clock driver collector item options id outcome
              w).0
            ≡ some r)
    unfolding after_turn
    after_turn_total item id outcome w h =
        let (u, e) = collect_total (turn_of outcome) w in
        let w' = (collect fold reader clock driver collector options (turn_of outcome) w).1 in
        let (r, made) = with_usage_total item id outcome u w' in (r, rw h (rw e made))

    register_total :
        (id : String) (w : W)
        → (w₁ : W) × (register_run fold reader clock driver collector id w ≡ some w₁)
    unfolding register_run
    register_total id w = elim (Option-cases collector) [
      | inl e ↦ (w, rw e)
      | inr (c, e) ↦
          let (w₁, p) = some_of (c.register id driver.product w) (tame.registers c e id w) in
          (w₁, rw e p)
    ]

    -- Then every round gives a record, whatever exception ends its `run_turn`.
    pub run_one_total :
        (item : TaskItem) (w : W)
        → (r : RunRecord) × ((run_one fold reader clock driver collector item options w).0 ≡ some r)
    unfolding run_one registered
    run_one_total item w =
        let id = round_id fold reader clock driver collector item options w in
        let (w₁, e) = register_total id w in
        let s = driver.run_turn id item.prompt w₁ in
        let (r, made) =
          after_turn_total item id s.0 (close_run fold reader clock driver collector id s.1)
            (tame.runs id item.prompt w₁) in
        (r, rw e made)
