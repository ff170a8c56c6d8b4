-- ===== src/Worker/Execute/Perform.antt =====
-- The body of `execute_job`: it leaves a later world, and the rounds end early only on a request.
use Prim.Native.Char.{Char}
use yonwork_benchmark.Prelude.{
  ◌≤◌, arith, Option, some, none, List, String, Bool-cases, true, inl, inr, ◌≡◌, refl, length, ◌⊎◌,
}
use yonwork_benchmark.JobStore.Later.{is_cancel_requested_later}
use yonwork_benchmark.JobStore.Table.{Job}
use yonwork_benchmark.Batch.Interfaces.{Driver, Collector, RunRecord}
use yonwork_benchmark.Assertions.Content.{JsonReader}
use yonwork_benchmark.Models.Cases.{TaskItem}
use yonwork_benchmark.Worker.World.{World, Site, Effect, value}
use yonwork_benchmark.Worker.Execute.Evolve.{
  chain-Gives, chain_keeps, chain_after, Gives, IsLaterWorld, later_same, Evolves, chain-Evolves,
}
use yonwork_benchmark.Worker.Execute.{
  should_stop, batch, stop_collector, batch_value, run_rounds, perform,
}
use yonwork_benchmark.Worker.Execute.Stages.{
  call-Evolves, log_each-Evolves, load_items-Evolves, require_items-Evolves, announce-Evolves,
  announce_collector-Evolves, stop_collector-Evolves, batch_ends, run_rounds-Evolves,
  publish-Evolves,
}

module _ {E : Type 0} (site : Site E) (fold : Char → String) (reader : JsonReader)
    (results_root : String) (job : Job) where
  pub perform-Evolves : Evolves (perform site fold reader results_root job)
  unfolding perform
  perform-Evolves =
      chain-Evolves _ _ (load_items-Evolves site fold reader results_root job) (λ items.
        chain-Evolves _ _ ((require_items-Evolves site fold reader results_root job) items)
          (λ checked.
            chain-Evolves _ _ ((announce-Evolves site fold reader results_root job) items)
              (λ announced.
                chain-Evolves _ _
                  ((call-Evolves site fold reader results_root job) (site.build_driver _))
                  (λ driver.
                    chain-Evolves _ _
                      ((call-Evolves site fold reader results_root job) (site.preflight driver))
                      (λ lines.
                        chain-Evolves _ _
                          ((log_each-Evolves site fold reader results_root job) lines)
                          (λ logged.
                            chain-Evolves _ _
                              ((call-Evolves site fold reader results_root job)
                                (site.build_collector _))
                              (λ collector.
                                chain-Evolves _ _
                                  ((announce_collector-Evolves site fold reader results_root job)
                                    collector)
                                  (λ told.
                                    chain-Evolves _ _
                                      ((run_rounds-Evolves site fold reader results_root job) driver
                                        collector items)
                                      (λ records.
                                        chain-Evolves _ _
                                          ((call-Evolves site fold reader results_root job)
                                            (site.close_driver driver))
                                          (λ closed.
                                            chain-Evolves _ _
                                              ((publish-Evolves site fold reader results_root job)
                                                driver records)
                                              (λ published. later_same)))))))))))

  -- Once seen, a request to stop is seen for ever.
  pub should_stop_later :
      (v w : World E)
      → IsLaterWorld v w
      → should_stop site fold reader results_root job v ≡ true
      → should_stop site fold reader results_root job w ≡ true
  unfolding should_stop
  should_stop_later v w l h = elim (Bool-cases v.stopping) [
    | inl e ↦ rw (l.stays e) refl
    | inr e ↦
        let c = is_cancel_requested_later job.job_id v.db w.db l.jobs (rw e at h) in
        ground (arith, c)
  ]

  -- The rounds are all there, or some are and a request to stop is seen.
  abbrev pub IsDone : List RunRecord → List TaskItem → World E → Type 0
  IsDone rs items w =
      (length rs ≡ length items)
      ⊎ ((length rs ≤ length items) × (should_stop site fold reader results_root job w ≡ true))

  IsDone-later :
      (rs : List RunRecord) (items : List TaskItem) (v w : World E)
      → IsLaterWorld v w
      → IsDone rs items v
      → IsDone rs items w
  IsDone-later rs items v w l (inl e) = inl e
  IsDone-later rs items v w l (inr (n, h)) = inr (n, should_stop_later v w l h)

  batch_value-Gives :
      (o : Option (List RunRecord)) (items : List TaskItem) (w : World E)
      → ((rs : List RunRecord) → o ≡ some rs → IsDone rs items w)
      → Gives (λ rs v. IsDone rs items v) (batch_value site fold reader results_root job o w)
  unfolding batch_value
  batch_value-Gives none items w h rs e = absurd (cc (e))
  batch_value-Gives (some xs) items w h rs e = h rs (cc (e))

  run_rounds-Gives :
      (d : Driver E) (c : Option (Collector E)) (items : List TaskItem) (w : World E)
      → Gives (λ rs v. IsDone rs items v) (run_rounds site fold reader results_root job d c items w)
  unfolding run_rounds
  run_rounds-Gives d c items w =
      let b = batch site fold reader results_root job d c items w in
      let P : World E → Type 0 =
        λ v. (rs : List RunRecord) → b.records ≡ some rs → IsDone rs items v in
      chain_keeps P (λ rs v. IsDone rs items v) (stop_collector site fold reader results_root job c)
        (λ u. batch_value site fold reader results_root job b.records) b.world
        (λ v p rs e.
          IsDone-later rs items v _ ((stop_collector-Evolves site fold reader results_root job) c v)
            (p rs e))
        ((batch_ends site fold reader results_root job) d c items w).1
        (λ u v p. batch_value-Gives b.records items v p)

  last-Gives :
      (rs : List RunRecord) (items : List TaskItem) (w : World E)
      → IsDone rs items w
      → Gives (λ (r : List RunRecord × List TaskItem) v. IsDone r.0 r.1 v) (value (rs, items), w)
  last-Gives rs items w h r e = rw (← value-injective e) h
    where
      value-injective : {A : Type 0} {a b : A} → ◌≡◌ {A = Effect A} (value a) (value b) → a ≡ b
      value-injective e = cc (e)

  pub perform-Gives :
      (w : World E)
      → Gives
          (λ (r : List RunRecord × List TaskItem) v. IsDone r.0 r.1 v)
          (perform site fold reader results_root job w)
  unfolding perform
  perform-Gives w =
      let Q : List RunRecord × List TaskItem → World E → Type 0 = λ r v. IsDone r.0 r.1 v in
      chain_after Q _ _ w (λ items w₁. chain_after Q _ _ w₁ (λ checked w₂.
        chain_after Q _ _ w₂ (λ announced w₃. chain_after Q _ _ w₃ (λ driver w₄.
          chain_after Q _ _ w₄ (λ lines w₅. chain_after Q _ _ w₅ (λ logged w₆.
            chain_after Q _ _ w₆ (λ collector w₇. chain_after Q _ _ w₇ (λ told w₇'.
              chain-Gives (λ rs v. IsDone rs items v) Q _ _ w₇'
                (run_rounds-Gives driver collector items w₇')
                (λ rs w₈ p.
                  chain_keeps (λ v. IsDone rs items v) Q _ _ w₈
                    (λ v q.
                      IsDone-later rs items v _
                        ((call-Evolves site fold reader results_root job) (site.close_driver driver)
                          v)
                        q)
                    p
                    (λ closed w₉ q.
                      chain_keeps (λ v. IsDone rs items v) Q _ (λ u w. (value (rs, items), w)) w₉
                        (λ v q.
                          IsDone-later rs items v _
                            ((publish-Evolves site fold reader results_root job) driver rs v) q)
                        q (λ published w' q'. last-Gives rs items w' q')))))))))))
