-- ===== src/Batch/Loop/Laws/Frame.antt =====
-- What holds between the world before a batch and the world after it, and why a batch ends early.
use yonwork_benchmark.Batch.Round.Frame.{run_one_frame, Respects}
use Prim.Native.Char.{Char}
use mathlib.Core.Option.{some-injective}
use yonwork_benchmark.Prelude.{
  ◌≤◌, ◌∙◌, ◌+◌, Option, Option-cases, Bool-cases, inl, inr, some, String, ◌≡◌, length,
  length-append, List, ◌∷◌, [], ◌++◌, ◌⊎◌, arith, Bool, true,
}
use yonwork_benchmark.Batch.Loop.Laws.{
  sym, ap, loop_stopped, loop_escaped, loop_unreported, loop_next, run_from, run_batch, BatchResult,
  run_one, TaskItem, RunRecord, BatchOptions, Collector, Driver, Clock, JsonReader,
}
use Prim.Native.Char.{Char}

module _ {W : Type 0} (fold : Char → String) (reader : JsonReader) (clock : Clock W)
    (driver : Driver W) (collector : Option (Collector W)) (options : BatchOptions)
    (should_stop : W → Bool) (on_record : RunRecord → W → Option W) (R : W → W → Type 0)
    (respects : Respects R driver collector)
    (reports : (r : RunRecord) (w w' : W) → on_record r w ≡ some w' → R w w') where
  abbrev batch : List TaskItem → List RunRecord → List RunRecord → W → BatchResult W
  batch = run_from fold reader clock driver collector options should_stop on_record

  abbrev one : TaskItem → W → Option RunRecord × W
  one item w = run_one fold reader clock driver collector item options w

  one_frame : (item : TaskItem) (w : W) → R w (one item w).1
  one_frame = run_one_frame fold reader clock driver collector options R respects

  -- The records cover all items, unless the loop saw a request to stop in the world that it leaves.
  abbrev Ends : List TaskItem → List RunRecord → W → BatchResult W → Type 0
  Ends items records w b =
      R w b.world
      × ((rs : List RunRecord)
          → b.records ≡ some rs
          → (length rs ≡ length records + length items)
            ⊎ ((length rs ≤ length records + length items) × (should_stop b.world ≡ true)))

  run_from-Ends :
      (items : List TaskItem) (records lines : List RunRecord) (w : W)
      → Ends items records w (batch items records lines w)
  run_from-Ends [] records lines w =
      unfold run_from in
      (respects.same w, λ rs e. inl (ap length (sym (some-injective _ _ e)) ∙ omega arith))
  run_from-Ends (item ∷ items) records lines w = elim (Bool-cases (should_stop w)) [
    | inl stop ↦
        rw
          (loop_stopped fold reader clock driver collector options should_stop on_record item items
            records lines w stop)
          (respects.same w, λ rs e. inr (shorter rs (some-injective _ _ e), stop))
    | inr go ↦ elim (Option-cases (one item w).0) [
      | inl escaped ↦
          rw
            (loop_escaped fold reader clock driver collector options should_stop on_record item
              items records lines w go escaped)
            (one_frame item w, λ rs e. absurd (cc (e)))
      | inr (r, made) ↦ elim (Option-cases (on_record r (one item w).1)) [
        | inl lost ↦
            rw
              (loop_unreported fold reader clock driver collector options should_stop on_record item
                items records lines w go made lost)
              (one_frame item w, λ rs e. absurd (cc (e)))
        | inr (w', reported) ↦
            let rest = run_from-Ends items (records ++ r ∷ []) (lines ++ r ∷ []) w' in
            rw
              (loop_next fold reader clock driver collector options should_stop on_record item items
                records lines w go made reported)
              (
                respects.trans _ _ _ (one_frame item w)
                    (respects.trans _ _ _ (reports r (one item w).1 w' reported) rest.0),
                λ rs e. counted rs r (rest.1 rs e),
              )
      ]
    ]
  ]
    where
      shorter :
          (rs : List RunRecord) → records ≡ rs → length rs ≤ length records + length (item ∷ items)
      shorter rs e = rw (← e) (omega arith)

      counted :
          {A : Type 0} (rs : List RunRecord) (r : RunRecord)
          → (length rs ≡ length (records ++ r ∷ []) + length items)
            ⊎ ((length rs ≤ length (records ++ r ∷ []) + length items) × A)
          → (length rs ≡ length records + length (item ∷ items))
            ⊎ ((length rs ≤ length records + length (item ∷ items)) × A)
      counted rs r (inl e) = inl (e ∙ omega (arith, length-append records (r ∷ [])))
      counted rs r (inr (l, a)) = inr (omega (arith, l, length-append records (r ∷ [])), a)

  -- A batch that no exception ends has a record for every item, unless a request to stop is seen.
  pub run_batch-Ends :
      (items : List TaskItem) (lines : List RunRecord) (w : W)
      → let b =
          run_batch fold reader clock driver collector options should_stop on_record items lines
            w in
        R w b.world
        × ((rs : List RunRecord)
            → b.records ≡ some rs
            → (length rs ≡ length items)
              ⊎ ((length rs ≤ length items) × (should_stop b.world ≡ true)))
  unfolding run_batch
  run_batch-Ends items lines w =
      let h = run_from-Ends items [] lines w in (h.0, λ rs e. tidy rs (h.1 rs e))
    where
      tidy :
          {A : Type 0} (rs : List RunRecord)
          → (length rs ≡ 0 + length items) ⊎ ((length rs ≤ 0 + length items) × A)
          → (length rs ≡ length items) ⊎ ((length rs ≤ length items) × A)
      tidy rs (inl e) = inl (omega (arith, e))
      tidy rs (inr (l, a)) = inr (omega (arith, l), a)
