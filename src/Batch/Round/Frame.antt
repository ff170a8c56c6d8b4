-- ===== src/Batch/Round/Frame.antt =====
-- What holds between the world before a round and the world after it.
use Prim.Native.Char.{Char}
use mathlib.Core.Option.{some-injective}
use yonwork_benchmark.Prelude.{Option, Option-cases, Bool-cases, inl, inr, some, none, String, ◌≡◌}
use yonwork_benchmark.Batch.Round.{
  Outcome, UsageCollection, TaskItem, ChatTurn, BatchOptions, Collector, Clock, Driver, JsonReader,
  finish_round, with_usage, after_turn, registered, register_run, close_run, collect, enrich,
  round_id, run_one, turn_of, is_interrupted,
}
-- `R` is kept by every operation that a round calls.
use Prim.Native.Char.{Char}
use yonwork_benchmark.Batch.Interfaces.{Driver}

pub record Respects {W : Type 0} (R : W → W → Type 0) (driver : Driver W)
    (collector : Option (Collector W)) : Type 0 where
  pub same : (w : W) → R w w
  pub trans : (u v w : W) → R u v → R v w → R u w
  pub runs : (id p : String) (w : W) → R w (driver.run_turn id p w).1
  pub collects : (t : ChatTurn) (w : W) → R w (driver.collect_usage t w).1
  pub enriches : (t : ChatTurn) (w : W) → R w (driver.enrich t w).1
  pub registers :
      (c : Collector W)
      → collector ≡ some c
      → (id : String) (w w' : W) → c.register id driver.product w ≡ some w'
      → R w w'
  pub closes :
      (c : Collector W) → collector ≡ some c → (id : String) (w : W) → R w (c.close_run id w)

module _ {W : Type 0} (fold : Char → String) (reader : JsonReader) (clock : Clock W)
    (driver : Driver W) (collector : Option (Collector W)) (options : BatchOptions)
    (R : W → W → Type 0) (r : Respects R driver collector) where
  collect_frame :
      (t : Option ChatTurn) (w : W) → R w (collect fold reader clock driver collector options t w).1
  unfolding collect
  collect_frame none w = r.same w
  collect_frame (some t) w = elim (Bool-cases options.collect_usage) [
    | inl e ↦ simp e (r.collects t w)
    | inr e ↦ simp e (r.same w)
  ]

  enrich_frame :
      (t : Option ChatTurn) (w : W) → R w (enrich fold reader clock driver collector t w).1
  unfolding enrich
  enrich_frame none w = r.same w
  enrich_frame (some t) w = r.enriches t w

  finish_round_frame :
      (item : TaskItem) (id : String) (outcome : Outcome) (u : UsageCollection)
      (t : Option (Option ChatTurn)) (w : W)
      → R w (finish_round fold reader clock driver collector item options id outcome u t w).1
  unfolding finish_round
  finish_round_frame item id outcome u none w = r.same w
  finish_round_frame item id outcome u (some t) w = r.same w

  with_usage_frame :
      (item : TaskItem) (id : String) (outcome : Outcome) (u : Option UsageCollection) (w : W)
      → R w (with_usage fold reader clock driver collector item options id outcome u w).1
  unfolding with_usage
  with_usage_frame item id outcome none w = r.same w
  with_usage_frame item id outcome (some u) w = r.trans _ _ _ (enrich_frame (turn_of outcome) w) (
      finish_round_frame item id outcome u
        (enrich fold reader clock driver collector (turn_of outcome) w).0
        (enrich fold reader clock driver collector (turn_of outcome) w).1)

  after_turn_frame :
      (item : TaskItem) (id : String) (outcome : Outcome) (w : W)
      → R w (after_turn fold reader clock driver collector item options id outcome w).1
  unfolding after_turn
  after_turn_frame item id outcome w = elim (Bool-cases (is_interrupted outcome)) [
    | inl e ↦ rw e (r.same w)
    | inr e ↦
        let c = collect fold reader clock driver collector options (turn_of outcome) w in
        rw e (
          r.trans _ _ _ (collect_frame (turn_of outcome) w)
            (with_usage_frame item id outcome c.0 c.1))
  ]

  close_run_frame : (id : String) (w : W) → R w (close_run fold reader clock driver collector id w)
  unfolding close_run
  close_run_frame id w = elim (Option-cases collector) [
    | inl e ↦ rw e (r.same w)
    | inr (c, e) ↦ rw e (r.closes c e id w)
  ]

  register_run_frame :
      (id : String) (w w₁ : W)
      → register_run fold reader clock driver collector id w ≡ some w₁
      → R w w₁
  unfolding register_run
  register_run_frame id w w₁ h = elim (Option-cases collector) [
    | inl e ↦ rw (← some-injective _ _ (rw e at h)) (r.same w)
    | inr (c, e) ↦ r.registers c e id w w₁ (rw e at h)
  ]

  -- Then a round keeps it, on every way out.
  pub run_one_frame :
      (item : TaskItem) (w : W) → R w (run_one fold reader clock driver collector item options w).1
  unfolding run_one registered
  run_one_frame item w =
      let id = round_id fold reader clock driver collector item options w in
      elim (Option-cases (register_run fold reader clock driver collector id w)) [
        | inl e ↦ rw e (r.same w)
        | inr (w₁, e) ↦
            let s = driver.run_turn id item.prompt w₁ in
            let closed = close_run fold reader clock driver collector id s.1 in
            rw e (
              r.trans _ _ _ (register_run_frame id w w₁ e) (
                r.trans _ _ _ (r.runs id item.prompt w₁)
                  (r.trans _ _ _ (close_run_frame id s.1) (after_turn_frame item id s.0 closed))))
      ]
