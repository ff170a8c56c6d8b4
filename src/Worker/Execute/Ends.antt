-- ===== src/Worker/Execute/Ends.antt =====
-- How `execute_job` leaves the row of its job, and the other rows.
use yonwork_benchmark.JobStore.Running.{update_where_idle, find_job-update_where}
use Prim.Native.Char.{Char}
use mathlib.Core.Option.{some-injective}
use yonwork_benchmark.Prelude.{◌↔◌, is_blank, concat, Bool-cases}
use yonwork_benchmark.Worker.World.{Thrown}
use yonwork_benchmark.Worker.Execute.{handler_error, final_error}
use yonwork_benchmark.Prelude.{
  some, none, List, String, Bool, true, false, inl, inr, ◌≡◌, refl, sym, ap, ◌∙◌, length, All,
  arith, is_some,
}
use yonwork_benchmark.JobStore.Later.{find_job-IsLater, only-IsLaterTable}
use yonwork_benchmark.JobStore.Table.{
  Job, Status, Level, is_running, is_terminal, find_job, update_where, has_id,
}
use yonwork_benchmark.JobStore.Invariant.{IsWellFormed}
use yonwork_benchmark.JobStore.Steps.{finish_job-IsWellFormed}
use yonwork_benchmark.JobStore.Queue.{append_event, finish_job, finish, is_cancel_requested}
use yonwork_benchmark.Batch.Interfaces.{RunRecord}
use yonwork_benchmark.Assertions.Content.{JsonReader}
use yonwork_benchmark.Models.Cases.{TaskItem}
use yonwork_benchmark.Worker.World.{World, Site, Effect, value, raised}
use yonwork_benchmark.Worker.Execute.Evolve.{IsLaterWorld, Gives}
use yonwork_benchmark.Worker.Execute.Perform.{IsDone, perform-Evolves, perform-Gives}
use yonwork_benchmark.Worker.Execute.{
  perform, finish_with, stored_path, final_status, is_interrupted, conclude, execute_job,
  should_stop,
}

module _ {E : Type 0} (site : Site E) (fold : Char → String) (reader : JsonReader)
    (results_root : String) (job : Job) where
  abbrev run : World E → World E
  run w = execute_job site fold reader results_root job w

  -- The world in which the body of the `try` ends, however it ends.
  abbrev body : World E → Effect (List RunRecord × List TaskItem) × World E
  body w = perform site fold reader results_root job (record w { completed = 0; suite_id = none })

  -- A row as `finish_job` leaves it: final, with its end and its error.
  abbrev IsFinal : Status → String → World E → World E → Type 0
  IsFinal status error v w =
      ((j : Job)
        → find_job job.job_id v.db.jobs ≡ some j
        → (k : Job) × (find_job job.job_id w.db.jobs ≡ some k)
          × (k.status ≡ status)
          × (k.error ≡ some error)
          × (is_some k.finished_at ≡ true))
      × (All (λ j. is_running j.status ≡ true → j.job_id ≡ job.job_id) v.db.jobs
          → All (λ j. is_running j.status ≡ false) w.db.jobs)
      × (IsWellFormed v.db → IsWellFormed w.db)

  finish_with-IsFinal :
      (status : Status) (error : String) (level : Level) (v : World E)
      → is_terminal status ≡ true
      → is_running status ≡ false
      → IsFinal status error v (finish_with site fold reader results_root job status error level v)
  unfolding finish_with finish_job append_event
  finish_with-IsFinal status error level v ends idle =
      let f =
        finish status v.suite_id (stored_path site fold reader results_root job v) error
          (site.now v.env) in
      rw (ends, finish_with)
        (
          λ j h.
              (f j, find_job-update_where job.job_id f v.db.jobs j (λ i. refl) h, refl, refl, refl),
          update_where_idle job.job_id f v.db.jobs (λ j. idle),
          λ h.
              let after =
                finish_job-IsWellFormed job.job_id status v.suite_id
                  (stored_path site fold reader results_root job v) error (site.now v.env) v.db
                  (record v.db { jobs = update_where (has_id job.job_id) f v.db.jobs })
                  (rw (ends, finish_job) refl) h in
              record { keyed = after.keyed; sound = after.sound },
        )

  -- Why the row gets its status and its error.
  Reason : Effect (List RunRecord × List TaskItem) × World E → Status → String → Type 0
  Reason (raised thrown, v) status error = (status ≡ Status.failed) × (error ≡ handler_error thrown)
  Reason (value (rs, items), v) status error =
      let c = is_cancel_requested job.job_id v.db in
      let i = is_interrupted site fold reader results_root job rs items v in
      (status ≡ final_status c i) × (error ≡ final_error c i)

  final_status-IsFinal : (c i : Bool) → is_terminal (final_status c i) ≡ true
  unfolding final_status
  final_status-IsFinal c i = ground arith

  final_status_idle : (c i : Bool) → is_running (final_status c i) ≡ false
  unfolding final_status
  final_status_idle c i = ground arith

  conclude-IsFinal :
      (r : Effect (List RunRecord × List TaskItem) × World E)
      → (status : Status) × (error : String) × IsFinal status error r.1
          (conclude site fold reader results_root job r)
        × (is_terminal status ≡ true)
        × Reason r status error
  unfolding conclude Reason
  conclude-IsFinal (raised thrown, v) = (
    Status.failed,
    handler_error thrown,
    finish_with-IsFinal Status.failed (handler_error thrown) Level.error_level v refl refl,
    refl,
    (refl, refl),
  )
  conclude-IsFinal (value (rs, items), v) =
      let c = is_cancel_requested job.job_id v.db in
      let i = is_interrupted site fold reader results_root job rs items v in
      (
        final_status c i,
        _,
        finish_with-IsFinal (final_status c i) _ _ v (final_status-IsFinal c i)
            (final_status_idle c i),
        final_status-IsFinal c i,
        (refl, refl),
      )

  body-Evolves : (w : World E) → IsLaterWorld w (body w).1
  body-Evolves w =
      let l =
        perform-Evolves site fold reader results_root job
          (record w { completed = 0; suite_id = none }) in
      record { jobs = l.jobs; stays = l.stays; well = l.well }

  -- If the job has a row and no other job runs, then, however the job ends, its row is in a final
  -- status with an end time, and no job runs; a well-formed table stays well-formed.
  pub execute_job_ends :
      (w : World E) (j : Job)
      → find_job job.job_id w.db.jobs ≡ some j
      → All (λ i. is_running i.status ≡ true → i.job_id ≡ job.job_id) w.db.jobs
      → ((k : Job) × (find_job job.job_id (run w).db.jobs ≡ some k)
          × (is_terminal k.status ≡ true)
          × (is_some k.finished_at ≡ true))
        × All (λ i. is_running i.status ≡ false) (run w).db.jobs
        × (IsWellFormed w.db → IsWellFormed (run w).db)
  unfolding execute_job
  execute_job_ends w j h only =
      let l = body-Evolves w in
      let (status, error, final, ends, why) = conclude-IsFinal (body w) in
      let (i, found, later) = find_job-IsLater job.job_id w.db.jobs (body w).1.db.jobs j l.jobs h in
      let (k, stored, s, e, f) = final.0 i found in
      (
        (k, stored, ap is_terminal s ∙ ends, f),
        final.1 (only-IsLaterTable job.job_id w.db.jobs (body w).1.db.jobs l.jobs only),
        λ well. final.2 (l.well well),
      )

  -- All rounds were run and recorded, and nobody asked to cancel.
  abbrev pub RanAll : Effect (List RunRecord × List TaskItem) × World E → Type 0
  RanAll r =
      (rs : List RunRecord) × (items : List TaskItem) × (r.0 ≡ value (rs, items))
      × (length rs ≡ length items)
      × (is_cancel_requested job.job_id r.1.db ≡ false)

  counted :
      (rs : List RunRecord) (items : List TaskItem) (v : World E)
      → IsDone site fold reader results_root job rs items v
      → is_cancel_requested job.job_id v.db ≡ false
      → is_interrupted site fold reader results_root job rs items v ≡ false
      → length rs ≡ length items
  unfolding is_interrupted should_stop
  counted rs items v (inl e) c i = e
  counted rs items v (inr (l, s)) c i = ground (arith, l, s, c, i)

  not_interrupted :
      (rs : List RunRecord) (items : List TaskItem) (v : World E)
      → length rs ≡ length items
      → is_interrupted site fold reader results_root job rs items v ≡ false
  unfolding is_interrupted
  not_interrupted rs items v e = ground (arith, e)

  final_completed :
      (c i : Bool) → (final_status c i ≡ Status.completed) ↔ ((c ≡ false) × (i ≡ false))
  unfolding final_status
  final_completed c i = ground arith

  completed_iff :
      (r : Effect (List RunRecord × List TaskItem) × World E) (status : Status) (error : String)
      → Gives
          (λ (p : List RunRecord × List TaskItem) v.
            IsDone site fold reader results_root job p.0 p.1 v)
          r
      → Reason r status error
      → (status ≡ Status.completed) ↔ RanAll r
  unfolding Reason
  completed_iff (raised thrown, v) status error g (s, e) =
      (λ h. absurd (cc (s, h)), λ (rs, items, q, n, c). absurd (cc (q)))
  completed_iff (value (rs, items), v) status error g why =
      let c = is_cancel_requested job.job_id v.db in
      let i = is_interrupted site fold reader results_root job rs items v in
      let f = final_completed c i in
      (
        λ h.
            let (hc, hi) = f.0 (sym why.0 ∙ h) in
            (rs, items, refl, counted rs items v (g (rs, items) refl) hc hi, hc),
        λ (rs', items', q, n, hc).
            why.0 ∙ f.1 (hc, not_interrupted rs items v (same rs' items' q n)),
      )
    where
      same :
          (rs' : List RunRecord) (items' : List TaskItem)
          → ◌≡◌ {A = Effect (List RunRecord × List TaskItem)}
              (value (rs, items))
              (value (rs', items'))
          → length rs' ≡ length items'
          → length rs ≡ length items
      same rs' items' q n =
          let pair : ◌≡◌ {A = List RunRecord × List TaskItem} (rs, items) (rs', items') = cc (q) in
          ap (λ (p : List RunRecord × List TaskItem). length p.0) pair
          ∙ (n ∙ sym (ap (λ (p : List RunRecord × List TaskItem). length p.1) pair))

  -- The row of a job that had one is Completed after execute_job exactly if the body raised nothing,
  -- no request to cancel is there at its end, and every round of the job has its record.
  pub execute_job_completed :
      (w : World E) (j k : Job)
      → find_job job.job_id w.db.jobs ≡ some j
      → find_job job.job_id (run w).db.jobs ≡ some k
      → (k.status ≡ Status.completed) ↔ RanAll (body w)
  unfolding execute_job
  execute_job_completed w j k h stored =
      let l = body-Evolves w in
      let (status, error, final, ends, why) = conclude-IsFinal (body w) in
      let (i, found, later) = find_job-IsLater job.job_id w.db.jobs (body w).1.db.jobs j l.jobs h in
      let (k', stored', s, e, f) = final.0 i found in
      let same : k' ≡ k = some-injective _ _ (sym stored' ∙ stored) in
      let iff =
        completed_iff (body w) status error
          (perform-Gives site fold reader results_root job
            (record w { completed = 0; suite_id = none }))
          why in
      (
        λ c. iff.0 (sym s ∙ (ap (λ (x : Job). x.status) same ∙ c)),
        λ r. sym (ap (λ (x : Job). x.status) same) ∙ (s ∙ iff.1 r),
      )

  handler_error-text :
      (t : Thrown)
      → (t.listed ≡ true → is_blank t.text ≡ false)
      → is_blank (handler_error t) ≡ false
  unfolding handler_error
  handler_error-text t h = elim (Bool-cases t.listed) [
    | inl e ↦ rw (e, handler_error) (h e)
    | inr e ↦ rw (e, handler_error) (not_blank t.class_name t.text)
  ]
    where
      not_blank : (a b : String) → is_blank (concat a (concat ": " b)) ≡ false
      not_blank String.[] b = unfold concat in refl
      not_blank (String.◌∷◌ c a) b = unfold concat in refl

  final_error-final_status :
      (c i : Bool) → (is_blank (final_error c i) ≡ false) ↔ (final_status c i ≡ Status.failed)
  unfolding final_error final_status
  final_error-final_status true i = (λ h. absurd (cc (h)), λ h. absurd (cc (h)))
  final_error-final_status false true = (λ h. refl, λ h. refl)
  final_error-final_status false false = (λ h. absurd (cc (h)), λ h. absurd (cc (h)))

  says_why :
      (r : Effect (List RunRecord × List TaskItem) × World E) (status : Status) (error : String)
      → ((t : Thrown) → r.0 ≡ raised t → t.listed ≡ true → is_blank t.text ≡ false)
      → Reason r status error
      → (is_blank error ≡ false) ↔ (status ≡ Status.failed)
  unfolding Reason
  says_why (raised t, v) status error h (s, e) =
      (λ b. s, λ f. ap is_blank e ∙ handler_error-text t (h t refl))
  says_why (value (rs, items), v) status error h (s, e) =
      let c = is_cancel_requested job.job_id v.db in
      let i = is_interrupted site fold reader results_root job rs items v in
      let f = final_error-final_status c i in
      (λ b. s ∙ f.0 (sym (ap is_blank e) ∙ b), λ g. ap is_blank e ∙ f.1 (sym s ∙ g))

  -- The row of a job that had one holds an error after execute_job, whatever happened, and this text
  -- is not empty exactly if the job is Failed: a Failed job always says why, and a Completed or
  -- Cancelled one blames nothing. The condition is that an exception of a class that the first handler
  -- lists, if one ends the body, has a text; for other exceptions there is none.
  pub execute_job_blames :
      (w : World E) (j : Job)
      → find_job job.job_id w.db.jobs ≡ some j
      → ((t : Thrown) → (body w).0 ≡ raised t → t.listed ≡ true → is_blank t.text ≡ false)
      → (k : Job) × (error : String) × (find_job job.job_id (run w).db.jobs ≡ some k)
        × (k.error ≡ some error)
        × ((is_blank error ≡ false) ↔ (k.status ≡ Status.failed))
  unfolding execute_job
  execute_job_blames w j h texts =
      let l = body-Evolves w in
      let (status, error, final, ends, why) = conclude-IsFinal (body w) in
      let (i, found, later) = find_job-IsLater job.job_id w.db.jobs (body w).1.db.jobs j l.jobs h in
      let (k, stored, s, e, f) = final.0 i found in
      let iff = says_why (body w) status error texts why in
      (k, error, stored, e, (λ b. s ∙ iff.0 b, λ g. iff.1 (sym s ∙ g)))
