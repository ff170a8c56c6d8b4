-- ===== src/Batch/Loop/Laws.antt =====
-- What `run_batch` leaves in the results file.
pub mod Frame
use yonwork_benchmark.Batch.Round.Total.{run_one_total, IsTame}
use yonwork_benchmark.Batch.Round.Laws.{run_one-item_of, item_key, item_of}
use Prim.Native.Char.{Char}
use mathlib.Core.List.{append-nil, append_assoc}
use mathlib.Core.Path.{ap, ap₂}
use yonwork_benchmark.Prelude.{
  ◌≢◌, ◌∙◌, Option-cases, inl, Bool-cases, length, ◌⊎◌, inr, sym, ◌++◌, String, List, [], ◌∷◌, ◌≡◌,
  refl, true, false, some, none, take, map,
}
use yonwork_benchmark.Batch.Loop.{
  run_one, TaskItem, RunRecord, Bool, BatchOptions, Collector, Option, Driver, Clock, JsonReader,
  BatchResult, run_from, run_batch,
}

module _ {W : Type 0} (fold : Char → String) (reader : JsonReader) (clock : Clock W)
    (driver : Driver W) (collector : Option (Collector W)) (options : BatchOptions)
    (should_stop : W → Bool) (on_record : RunRecord → W → Option W) where
  -- `rs` are the records of the first items, in order, `b` holds them, and the file has gained them.
  pub record Covers (items : List TaskItem) (records lines : List RunRecord) (b : BatchResult W)
      (rs : List RunRecord) : Type 0 where
    pub file : b.lines ≡ lines ++ rs
    pub in_order : map item_of rs ≡ take (length rs) (map item_key items)
    pub collected : (b.records ≡ none) ⊎ (b.records ≡ some (records ++ rs))

  abbrev loop : List TaskItem → List RunRecord → List RunRecord → W → BatchResult W
  loop = run_from fold reader clock driver collector options should_stop on_record

  abbrev round : TaskItem → W → Option RunRecord × W
  round item w = run_one fold reader clock driver collector item options w

  module _ (item : TaskItem) (items : List TaskItem) (records lines : List RunRecord) (w : W) where
    loop_stopped :
        should_stop w ≡ true
        → loop (item ∷ items) records lines w
          ≡ record { records = some records; world = w; lines = lines }
    unfolding run_from
    loop_stopped e = rw (e, run_from)

    loop_escaped :
        should_stop w ≡ false
        → (round item w).0 ≡ none
        → loop (item ∷ items) records lines w
          ≡ record { records = none; world = (round item w).1; lines = lines }
    unfolding run_from
    loop_escaped e made = rw (e, run_from) (rw (made, run_from))

    loop_unreported :
        {r : RunRecord}
        → should_stop w ≡ false
        → (round item w).0 ≡ some r
        → on_record r (round item w).1 ≡ none
        → loop (item ∷ items) records lines w
          ≡ record { records = none; world = (round item w).1; lines = lines ++ r ∷ [] }
    unfolding run_from
    loop_unreported e made reported =
        rw (e, run_from) (rw (made, run_from) (rw (reported, run_from)))

    loop_next :
        {r : RunRecord} {w' : W}
        → should_stop w ≡ false
        → (round item w).0 ≡ some r
        → on_record r (round item w).1 ≡ some w'
        → loop (item ∷ items) records lines w ≡ loop items (records ++ r ∷ []) (lines ++ r ∷ []) w'
    unfolding run_from
    loop_next e made reported = rw (e, run_from) (rw (made, run_from) (rw (reported, run_from)))

  loop-Covers :
      (items : List TaskItem) (records lines : List RunRecord) (w : W)
      → (rs : List RunRecord) × Covers items records lines (loop items records lines w) rs
  loop-Covers [] records lines w = (
    [],
    unfold run_from in
        record { file = sym (append-nil _); in_order = refl; collected = inr (rw append-nil) },
  )
  loop-Covers (item ∷ items) records lines w = elim (Bool-cases (should_stop w)) [
    | inl stop ↦
        rw (loop_stopped item items records lines w stop) (
          [],
          record { file = sym (append-nil _); in_order = refl; collected = inr (rw append-nil) },
        )
    | inr go ↦ elim (Option-cases (round item w).0) [
      | inl escaped ↦
          rw (loop_escaped item items records lines w go escaped)
            ([], record { file = sym (append-nil _); in_order = refl; collected = inl refl })
      | inr (r, made) ↦ elim (Option-cases (on_record r (round item w).1)) [
        | inl lost ↦ rw (loop_unreported item items records lines w go made lost) (
          r ∷ [],
          record {
            file = refl;
            in_order =
                ap (λ k. k ∷ [])
                  (run_one-item_of fold reader clock driver collector options item w made);
            collected = inl refl;
          },
        )
        | inr (w', reported) ↦
            let (rs, c) = loop-Covers items (records ++ r ∷ []) (lines ++ r ∷ []) w' in
            rw (loop_next item items records lines w go made reported) (
              r ∷ rs,
              record {
                file = c.file ∙ append_assoc lines (r ∷ []) rs;
                in_order =
                    ap₂ ◌∷◌ (run_one-item_of fold reader clock driver collector options item w made)
                      c.in_order;
                collected = elim c.collected [
                  | inl e ↦ inl e
                  | inr e ↦ inr (e ∙ ap some (append_assoc records (r ∷ []) rs))
                ];
              },
            )
      ]
    ]
  ]

  -- A batch, however it ends, has appended to the results file one record for each of the first
  -- items, in the order of the items, and nothing else; if no exception escaped, these are the
  -- records that it returns.
  pub run_batch-Covers :
      (items : List TaskItem) (lines : List RunRecord) (w : W)
      → (rs : List RunRecord) × Covers items [] lines
          (run_batch fold reader clock driver collector options should_stop on_record items lines w)
          rs
  unfolding run_batch
  run_batch-Covers items lines w = loop-Covers items [] lines w

  module _ (tame : IsTame driver collector) (keep_going : (w : W) → should_stop w ≡ false)
      (reports : (r : RunRecord) (w : W) → on_record r w ≢ none) where
    loop_total :
        (items : List TaskItem) (records lines : List RunRecord) (w : W)
        → (rs : List RunRecord) × ((loop items records lines w).records ≡ some (records ++ rs))
          × (map item_of rs ≡ map item_key items)
    loop_total [] records lines w = ([], unfold run_from in rw append-nil, refl)
    loop_total (item ∷ items) records lines w =
        let (r, made) = run_one_total fold reader clock driver collector options tame item w in
        elim (Option-cases (on_record r (round item w).1)) [
          | inl lost ↦ absurd (reports r (round item w).1 lost)
          | inr (w', reported) ↦
              let (rs, e, k) = loop_total items (records ++ r ∷ []) (lines ++ r ∷ []) w' in
              rw (loop_next item items records lines w (keep_going w) made reported) (
                r ∷ rs,
                e ∙ ap some (append_assoc records (r ∷ []) rs),
                ap₂ ◌∷◌ (run_one-item_of fold reader clock driver collector options item w made) k,
              )
        ]

    -- With no request to stop, no failing callback, and nothing happening that `run_one` does not
    -- catch, the batch returns a record for every item, in order: no exception that a round raises
    -- stops the rounds after it.
    pub run_batch_total :
        (items : List TaskItem) (lines : List RunRecord) (w : W)
        → (rs : List RunRecord) × ((run_batch fold reader clock driver collector options should_stop
              on_record items lines w).records
            ≡ some rs)
          × (map item_of rs ≡ map item_key items)
    unfolding run_batch
    run_batch_total items lines w = loop_total items [] lines w
